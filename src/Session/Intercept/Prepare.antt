-- ===== src/Session/Intercept/Prepare.antt =====
-- session.go: which sessions the raising of an intercept ends.
use agentic_preview.Common.{
  ◌≡◌, refl, sym, false, not, ◌||◌, Option, none, some, arith, inl, inr, Bool-cases, eq_text,
  eq_text_iff,
}
use agentic_preview.Common.Result.{Result, ok, err}
use agentic_preview.Text.{Text}
use agentic_preview.Preview.{Preview, key}
use agentic_preview.Registry.{Registry}
use agentic_preview.Session.{Session, Sessions, session_for, is_live_id}
use agentic_preview.Session.Manager.{
  RpcError, InterceptSpec, PreparedIntercept, InterceptInfo, Manager,
}
use agentic_preview.Session.Conflict.{own_conflict, own_session, conflicting_own_session}
use agentic_preview.Session.Intercept.{
  spec_of, with_target_host, prepare_again, prepare_unblocked, prepare_first, prepare, prepared,
  resolve_target, raise_created, raise_prepared, raise_resolved, raise_in, raise,
}

-- The session that is found is named by a conflict with this very client, and is not a live one.
own_session-eq-some :
    (client : Text) (sessions : Sessions) (c : Option (Text × Text)) (id : Text)
    → own_session client sessions c ≡ some id
    → (c ≡ some (id, client)) × (is_live_id sessions id ≡ false)
unfolding own_session
own_session-eq-some client sessions none id h = absurd (ground arith)
own_session-eq-some client sessions (some (i, o)) id h =
    elim (Bool-cases (not (eq_text o client) || is_live_id sessions i)) [
      | inl e ↦ absurd (clash (rw e at h))
      | inr e ↦
          let same : i ≡ id = cc_some (rw e at h) in
          let own : o ≡ client = (eq_text_iff o client).0 (ground arith) in
          let dead : is_live_id sessions i ≡ false = ground arith in
          (rw (same, own) refl, rw (sym same) dead)
    ]
  where
    clash : none ≡ some id → ⊥
    clash q = absurd (ground arith)

    cc_some : some i ≡ some id → i ≡ id
    cc_some q = cc

-- A session that raising an intercept may end: not one of the live ones.
module _ {W : Type 0} (m : Manager W) (client : Text) (sessions : Sessions) (P : W → Type 0)
    (looked : (host : Text) (w : W) → P w → P (m.lookup_ip host w).1)
    (asked : (id : Text) (spec : InterceptSpec) (w : W) → P w → P (m.prepare_intercept id spec w).1)
    (created : (id : Text) (spec : InterceptSpec) (w : W)
      → P w
      → P (m.create_intercept id spec w).1)
    (ended : (id : Text) (w : W) → is_live_id sessions id ≡ false → P w → P (m.depart id w).1) where
  prepare_again_spares :
      (id : Text) (spec : InterceptSpec) (e stale : Text) (d : Result Text (Unit {0})) (w : W)
      → P w
      → P (prepare_again m id spec e stale d w).1
  unfolding prepare_again
  prepare_again_spares id spec e stale (err why) w h = h
  prepare_again_spares id spec e stale (ok done) w h = asked id spec w h

  prepare_unblocked_spares :
      (id : Text) (spec : InterceptSpec) (e : Text) (stale : Option Text) (w : W)
      → ((s : Text) → stale ≡ some s → is_live_id sessions s ≡ false)
      → P w
      → P (prepare_unblocked m id spec e stale w).1
  unfolding prepare_unblocked
  prepare_unblocked_spares id spec e none w n h = h
  prepare_unblocked_spares id spec e (some s) w n h =
      prepare_again_spares id spec e s _ _ (ended s w (n s refl) h)

  prepare_first_spares :
      (id : Text) (spec : InterceptSpec) (a : Result Text PreparedIntercept) (w : W)
      → P w
      → P (prepare_first m client sessions id spec a w).1
  unfolding prepare_first conflicting_own_session
  prepare_first_spares id spec (ok pi) w h = h
  prepare_first_spares id spec (err e) w h =
      prepare_unblocked_spares id spec e _ w
        (λ s q. (own_session-eq-some client sessions (own_conflict e) s q).1) h

  prepare_spares :
      (id : Text) (spec : InterceptSpec) (w : W) → P w → P (prepare m client sessions id spec w).1
  unfolding prepare
  prepare_spares id spec w h =
      prepare_first_spares id spec (prepared (m.prepare_intercept id spec w).0) _
        (asked id spec w h)

  raise_prepared_spares :
      (id : Text) (p : Preview) (spec : InterceptSpec) (r : Registry)
      (a : Result Text PreparedIntercept) (w : W)
      → P w
      → P (raise_prepared m id p spec r a w).2
  unfolding raise_prepared
  raise_prepared_spares id p spec r (err e) w h = h
  raise_prepared_spares id p spec r (ok pi) w h = ended_up _ _ (created id _ w h)
    where
      ended_up : (a : Result RpcError InterceptInfo) (v : W) → P v → P (raise_created m p r a v).2
      ended_up (err e) v g = unfold raise_created in g
      ended_up (ok ii) v g = unfold raise_created in g

  raise_resolved_spares :
      (id : Text) (p : Preview) (r : Registry) (a : Result Text Text) (w : W)
      → P w
      → P (raise_resolved m client sessions id p r a w).2
  unfolding raise_resolved
  raise_resolved_spares id p r (err e) w h = h
  raise_resolved_spares id p r (ok host) w h =
      let spec = spec_of client p host in
      let answer = prepare m client sessions id spec w in
      raise_prepared_spares id p spec (with_target_host host (key p) r) answer.0 answer.1
        (prepare_spares id spec w h)

  raise_in_spares :
      (s : Option Session) (p : Preview) (r : Registry) (w : W)
      → P w
      → P (raise_in m client sessions s p r w).2
  unfolding raise_in resolve_target
  raise_in_spares none p r w h = h
  raise_in_spares (some s) p r w h = raise_resolved_spares _ p r _ _ (looked _ w h)

  -- Whatever holds of the world outside, and is kept by every name lookup, every PrepareIntercept,
  -- every CreateIntercept and the end of every session that is not a live one of this process, is kept
  -- by raising an intercept: raising never ends a live session, whatever the manager answers.
  pub raise_spares_live :
      (p : Preview) (r : Registry) (w : W) → P w → P (raise m client sessions p r w).2
  unfolding raise
  raise_spares_live p r w h = raise_in_spares (session_for sessions p.namespace) p r w h
