-- ===== src/Session/Intercept/Obliged.antt =====
-- session.go: raising an intercept where nothing outside refuses.
use agentic_preview.Common.{
  ◌≡◌, refl, arith, List, [], ◌∷◌, Option, none, some, false, In, inl, inr, eq_text_refl,
}
use agentic_preview.Common.Result.{Result, ok, err}
use agentic_preview.Text.{Text}
use agentic_preview.Preview.{Preview, key}
use agentic_preview.Registry.{Registry}
use agentic_preview.Session.{Session, Sessions, session_for, is_live_id}
use agentic_preview.Session.Conflict.{own_conflict, own_session, conflicting_own_session}
use agentic_preview.Session.Manager.{
  RpcError, InterceptSpec, PreparedIntercept, InterceptInfo, Manager,
}
use agentic_preview.Session.Intercept.{
  first_ip4, target_name, spec_of, with_target_host, prepared, prepare_first, prepare, departed,
  prepare_unblocked, prepare_again, still_failed, resolve_target, raise_created, raise_prepared,
  raise_resolved, raise_in, raise,
}

-- PrepareIntercept prepares the intercept at once; or it refuses with a conflict that names a session
-- of this very client that is not a live one, that session departs or is not known any more, and in
-- the world after its departure the intercept is prepared.
pub data MayPrepare {W : Type 0} (m : Manager W) (client : Text) (sessions : Sessions) (id : Text)
    (spec : InterceptSpec) (w : W) : Type 0 where
  at_once :
      (pi : PreparedIntercept)
      → (m.prepare_intercept id spec w).0 ≡ ok pi
      → pi.error ≡ []
      → MayPrepare m client sessions id spec w
  blocked :
      (e stale : Text) (pi : PreparedIntercept)
      → prepared (m.prepare_intercept id spec w).0 ≡ err e
      → own_conflict e ≡ some (stale, client)
      → is_live_id sessions stale ≡ false
      → departed (m.depart stale (m.prepare_intercept id spec w).1).0 ≡ ok tt
      → (m.prepare_intercept id spec (m.depart stale (m.prepare_intercept id spec w).1).1).0 ≡ ok pi
      → pi.error ≡ []
      → MayPrepare m client sessions id spec w

-- Among the addresses of every name is one of IPv4, the manager prepares every intercept, at once or
-- once a dead session is gone, and creates it.
pub record IsObliging {W : Type 0} (m : Manager W) (client : Text) (sessions : Sessions)
    : Type 0 where
  pub resolves :
      (host : Text) (w : W)
      → (ips : List (Option Text)) × (ip : Text) × ((m.lookup_ip host w).0 ≡ ok ips)
        × In (some ip) ips
  pub prepares : (id : Text) (spec : InterceptSpec) (w : W) → MayPrepare m client sessions id spec w
  pub creates :
      (id : Text) (spec : InterceptSpec) (w : W)
      → (ii : InterceptInfo) × ((m.create_intercept id spec w).0 ≡ ok ii)

first_ip4-found :
    (host : Text) (ips : List (Option Text)) (ip : Text)
    → In (some ip) ips
    → (found : Text) × (first_ip4 host ips ≡ ok found)
unfolding first_ip4
first_ip4-found host [] ip i = absurd i
first_ip4-found host (some a ∷ ips) ip i = (a, refl)
first_ip4-found host (none ∷ ips) ip (inl e) = absurd (ground arith)
first_ip4-found host (none ∷ ips) ip (inr i) = first_ip4-found host ips ip i

own_session-dead :
    (client : Text) (sessions : Sessions) (stale : Text)
    → is_live_id sessions stale ≡ false
    → own_session client sessions (some (stale, client)) ≡ some stale
unfolding own_session
own_session-dead client sessions stale h = simp (eq_text_refl client, h) refl

module _ {W : Type 0} (m : Manager W) (client : Text) (sessions : Sessions)
    (o : IsObliging m client sessions) where
  resolve_target_obliged : (p : Preview) (w : W) → (ip : Text) × ((resolve_target m p w).0 ≡ ok ip)
  unfolding resolve_target
  resolve_target_obliged p w =
      let (ips, ip, e, i) = o.resolves (target_name p) w in
      let (found, q) = first_ip4-found (target_name p) ips ip i in (found, rw e q)

  prepare_obliged :
      (id : Text) (spec : InterceptSpec) (w : W)
      → (pi : PreparedIntercept) × ((prepare m client sessions id spec w).0 ≡ ok pi)
  prepare_obliged id spec w = from (o.prepares id spec w)
    where
      from :
          MayPrepare m client sessions id spec w
          → (pi : PreparedIntercept) × ((prepare m client sessions id spec w).0 ≡ ok pi)
      from (at_once pi e n) = (pi, unfold prepare prepared prepare_first in (simp (e, n) refl))
      from (blocked e stale pi q c live d again n) = (
        pi,
        unfold prepare prepare_first conflicting_own_session prepare_unblocked prepare_again
              still_failed in
            (simp (q, c, own_session-dead client sessions stale live, d)
              (unfold prepared in (simp (again, n) refl))),
      )

  raise_created_obliged :
      (p : Preview) (r : Registry) (a : Result RpcError InterceptInfo) (w : W) (ii : InterceptInfo)
      → a ≡ ok ii
      → (raise_created m p r a w).0 ≡ ok tt
  unfolding raise_created
  raise_created_obliged p r a w ii e = rw e refl

  raise_prepared_obliged :
      (id : Text) (p : Preview) (spec : InterceptSpec) (r : Registry)
      (a : Result Text PreparedIntercept) (w : W) (pi : PreparedIntercept)
      → a ≡ ok pi
      → (raise_prepared m id p spec r a w).0 ≡ ok tt
  unfolding raise_prepared
  raise_prepared_obliged id p spec r (err x) w pi e = absurd (ground arith)
  raise_prepared_obliged id p spec r (ok got) w pi e =
      let (ii, c) = o.creates id _ w in raise_created_obliged p r _ _ ii c

  raise_resolved_obliged :
      (id : Text) (p : Preview) (r : Registry) (a : Result Text Text) (w : W) (ip : Text)
      → a ≡ ok ip
      → (raise_resolved m client sessions id p r a w).0 ≡ ok tt
  unfolding raise_resolved
  raise_resolved_obliged id p r (err x) w ip e = absurd (ground arith)
  raise_resolved_obliged id p r (ok host) w ip e =
      let spec = spec_of client p host in
      let (pi, q) = prepare_obliged id spec w in
      raise_prepared_obliged id p spec (with_target_host host (key p) r)
        (prepare m client sessions id spec w).0 _ pi q

  pub raise_obliged :
      (p : Preview) (r : Registry) (w : W) (s : Session)
      → session_for sessions p.namespace ≡ some s
      → (raise m client sessions p r w).0 ≡ ok tt
  unfolding raise raise_in
  raise_obliged p r w s e =
      let (ip, q) = resolve_target_obliged p w in
      rw e (raise_resolved_obliged s.session_id p r (resolve_target m p w).0 _ ip q)
