-- ===== src/Controller/Window/Shown.antt =====
-- schedule_controller.go: what the state of an intercept schedule shows after a tick.
use agentic_preview.Common.{
  ℕ, length, ◌≡◌, ◌≢◌, ◌⊎◌, refl, sym, Bool, true, false, [], Option, none, some, arith, ltb, leb,
  ◌-◌, ◌==◌, ◌&&◌, inl, inr, Bool-cases, is_some,
}
use agentic_preview.Common.Assoc.{get, get-put_self, get-delete_self}
use agentic_preview.Common.Result.{Result, ok, err}
use agentic_preview.Text.{Text}
use agentic_preview.Preview.{ServiceKey, service_key, Preview}
use agentic_preview.Registry.{Registry, add, added}
use agentic_preview.Registry.Invariant.{add-eq-ok, get-update_all-is_some}
use agentic_preview.Registry.Steady.{Held, set_status-Held}
use agentic_preview.Schedule.{Schedule}
use agentic_preview.Session.{Session, Sessions, session_for}
use agentic_preview.Session.Manager.{
  RpcError, unknown_object, rpc_failed, Disposition, active, waiting, other_disposition,
  InterceptInfo, Manager,
}
use agentic_preview.Session.Intercept.{with_target_host, hosted}
use agentic_preview.Session.Intercept.Raised.{raise_keeps}
use agentic_preview.Controller.{ScheduleState, alarm}
use agentic_preview.Controller.Alarm.{alarm-problem}
use agentic_preview.Controller.Window.Kept.{hosted-Unseen}
use agentic_preview.Controller.Window.{
  schedule_key, schedule_preview, raise_grace, down, refusal, no_tunnel, few_tunnels, active_state,
  open_raised, open_registered, open_unblocked, open_in, open_window, rebuild, check_disposition,
  check_answer, check_in, check_held, check_window, close_removed, close_held, close_window, settle,
}

-- Of a window that is to be open: the intercept is up or there is a problem to read, and up is said
-- only of an intercept that is registered. Of one that is to be shut: not up, and not registered.
unfoldable pub Shown : Bool → ServiceKey → ScheduleState → Registry → Type 0
Shown true k st r = ((st.up ≡ true) ⊎ (st.problem ≢ [])) × (st.up ≡ true → Held k r)
Shown false k st r = (st.up ≡ false) × (get k r ≡ none)

pub Shown-Held :
    (k : ServiceKey) (st : ScheduleState) (r : Registry)
    → Shown true k st r
    → st.up ≡ true
    → Held k r
unfolding Shown
Shown-Held k st r h = h.1

with_target_host-Held :
    (j : ServiceKey) (h : Text) (k : ServiceKey) (r : Registry)
    → Held j r
    → Held j (with_target_host h k r)
unfolding with_target_host
with_target_host-Held j h k r e =
    let u = hosted-Unseen h k in get-update_all-is_some (hosted h k) (λ p. ((u p).0, (u p).1)) j r e

down-Shown :
    (k : ServiceKey) (st : ScheduleState) (now : ℕ) (p : Text) (r : Registry)
    → p ≢ []
    → Shown true k (down st now p) r
unfolding Shown
down-Shown k st now p r n =
    let (at, e) = alarm-problem (record st { up = false }) now p in
    rw e (inr n, (λ u. absurd (ground arith)))

alarm-Shown :
    (k : ServiceKey) (st : ScheduleState) (now : ℕ) (p : Text) (r : Registry)
    → p ≢ []
    → Held k r
    → Shown true k (alarm st now p) r
unfolding Shown
alarm-Shown k st now p r n h = let (at, e) = alarm-problem st now p in rw e (inr n, (λ u. h))

active_state-Shown :
    (k : ServiceKey) (st : ScheduleState) (now : ℕ) (p : Preview) (r : Registry)
    → Held k r
    → Shown true k (active_state st now p) r
unfolding active_state no_tunnel few_tunnels
active_state-Shown k st now p r h =
    let late = ltb raise_grace (now - st.raised_at) in
    let n = length p.agent_pods in
    elim (Bool-cases (n == 0 && late)) [
      | inl e ↦ simp e (down-Shown k st now (no_tunnel p) r (λ q. unfold no_tunnel in cc))
      | inr e ↦ elim (Bool-cases (ltb 0 n && (ltb n p.agent_pods_reported && late))) [
        | inl f ↦
            simp (e, f) (down-Shown k st now (few_tunnels p) r (λ q. unfold few_tunnels in cc))
        | inr f ↦ simp (e, f) (unfold Shown in (inl refl, (λ u. h)))
      ]
    ]

close_removed-up :
    (st : ScheduleState) (a : Result Text (Unit {0})) → (close_removed st a).up ≡ false
unfolding close_removed
close_removed-up st (err e) = refl
close_removed-up st (ok done) = refl

module _ {W : Type 0} (m : Manager W) (client : Text) (sessions : Sessions) (sc : Schedule) where
  -- What is shown after a step that gives a state and a registry.
  abbrev ShownAfter : Bool → ScheduleState × Registry × W → Type 0
  ShownAfter want t = Shown want (schedule_key sc) t.0 t.1

  open_raised-Shown :
      (st : ScheduleState) (now : ℕ) (done : Result Text (Unit {0})) (r : Registry) (w : W)
      → Held (schedule_key sc) r
      → ShownAfter true (open_raised m client sessions sc st now done r w)
  unfolding open_raised
  open_raised-Shown st now (err e) r w h = down-Shown _ st now _ _ (λ q. cc)
  open_raised-Shown st now (ok done) r w h = unfold Shown in (inl refl, (λ u. h))

  open_registered-Shown :
      (st : ScheduleState) (now : ℕ) (r : Registry) (a : Result Text Registry) (w : W)
      → ((r1 : Registry) → a ≡ ok r1 → Held (schedule_key sc) r1)
      → ShownAfter true (open_registered m client sessions sc st now r a w)
  unfolding open_registered
  open_registered-Shown st now r (err e) w f = down-Shown _ st now _ r (λ q. cc)
  open_registered-Shown st now r (ok r1) w f = open_raised-Shown st now _ _ _ (
      raise_keeps m client sessions (Held (schedule_key sc)) (set_status-Held (schedule_key sc))
        (with_target_host-Held (schedule_key sc)) (schedule_preview sc) r1 w (f r1 refl))

  add-Held :
      (r r1 : Registry) (now : ℕ)
      → add r (schedule_preview sc) now ≡ ok r1
      → Held (schedule_key sc) r1
  unfolding schedule_preview added
  add-Held r r1 now e =
      let (f, same) = add-eq-ok r (schedule_preview sc) now e in
      rw (sym same) (rw (get-put_self (schedule_key sc) _ r) refl)

  open_unblocked-Shown :
      (st : ScheduleState) (now : ℕ) (r : Registry) (c : Option Preview) (w : W)
      → ShownAfter true (open_unblocked m client sessions sc st now r c w)
  unfolding open_unblocked
  open_unblocked-Shown st now r (some o) w =
      down-Shown _ st now (refusal sc o) r (λ q. unfold refusal in cc)
  open_unblocked-Shown st now r none w =
      open_registered-Shown st now r _ w (λ r1 e. add-Held r r1 now e)

  pub open_window-Shown :
      (st : ScheduleState) (now : ℕ) (r : Registry) (w : W)
      → ShownAfter true (open_window m client sessions sc st now r w)
  unfolding open_window
  open_window-Shown st now r w = opened_in (session_for sessions sc.spec.namespace)
    where
      opened_in : (s : Option Session) → ShownAfter true (open_in m client sessions sc s st now r w)
      opened_in none = unfold open_in in (down-Shown _ st now _ r (λ q. cc))
      opened_in (some s) = unfold open_in in (open_unblocked-Shown st now r _ w)

  rebuild-Shown :
      (p : Preview) (st : ScheduleState) (now : ℕ) (r : Registry) (w : W)
      → ShownAfter true (rebuild m client sessions sc p st now r w)
  unfolding rebuild
  rebuild-Shown p st now r w = open_window-Shown _ now _ _

  check_disposition-Shown :
      (p : Preview) (d : Disposition) (st : ScheduleState) (now : ℕ) (r : Registry) (w : W)
      → Held (schedule_key sc) r
      → ShownAfter true (check_disposition m client sessions sc p d st now r w)
  unfolding check_disposition
  check_disposition-Shown p active st now r w h = active_state-Shown _ st now p r h
  check_disposition-Shown p waiting st now r w h =
      elim (Bool-cases (leb (now - st.raised_at) raise_grace)) [
        | inl e ↦ simp e (unfold Shown in (inl refl, (λ u. h)))
        | inr e ↦ simp e (rebuild-Shown p st now r w)
      ]
  check_disposition-Shown p (other_disposition n) st now r w h = rebuild-Shown p st now r w

  check_answer-Shown :
      (p : Preview) (a : Result RpcError InterceptInfo) (st : ScheduleState) (now : ℕ)
      (r : Registry) (w : W)
      → Held (schedule_key sc) r
      → ShownAfter true (check_answer m client sessions sc p a st now r w)
  unfolding check_answer
  check_answer-Shown p (err (unknown_object e)) st now r w h = open_window-Shown _ now _ w
  check_answer-Shown p (err (rpc_failed e)) st now r w h = alarm-Shown _ st now _ r (λ q. cc) h
  check_answer-Shown p (ok ii) st now r w h =
      check_disposition-Shown p ii.disposition st now _ w (set_status-Held _ r _ _ _ h)

  check_window-Shown :
      (st : ScheduleState) (now : ℕ) (r : Registry) (w : W)
      → Held (schedule_key sc) r
      → ShownAfter true (check_window m client sessions sc st now r w)
  unfolding check_window
  check_window-Shown st now r w h = checked_held (get (schedule_key sc) r) h
    where
      checked_in :
          (p : Preview) (s : Option Session)
          → ShownAfter true (check_in m client sessions sc p s st now r w)
      checked_in p none = unfold check_in in (down-Shown _ st now _ r (λ q. cc))
      checked_in p (some s) = unfold check_in in (check_answer-Shown p _ st now r _ h)

      checked_held :
          (p : Option Preview)
          → is_some p ≡ true
          → ShownAfter true (check_held m client sessions sc p st now r w)
      checked_held none e = absurd (ground arith)
      checked_held (some p) e =
          unfold check_held in (checked_in p (session_for sessions p.namespace))

  close_window-Shown :
      (st : ScheduleState) (r : Registry) (w : W)
      → Held (schedule_key sc) r
      → ShownAfter false (close_window m client sessions sc st r w)
  unfolding close_window
  close_window-Shown st r w h = closed_held (get (schedule_key sc) r) h
    where
      closed_held :
          (p : Option Preview)
          → is_some p ≡ true
          → ShownAfter false (close_held m client sessions sc p st r w)
      closed_held none e = absurd (ground arith)
      closed_held (some p) e =
          unfold close_held Shown in (close_removed-up st _, get-delete_self (schedule_key sc) r)

  pub settle-Shown :
      (want held : Bool) (st : ScheduleState) (now : ℕ) (r : Registry) (w : W)
      → is_some (get (schedule_key sc) r) ≡ held
      → ShownAfter want (settle m client sessions sc want held st now r w)
  unfolding settle
  settle-Shown true false st now r w h = open_window-Shown st now r w
  settle-Shown true true st now r w h = check_window-Shown st now r w h
  settle-Shown false true st now r w h = close_window-Shown st r w h
  settle-Shown false false st now r w h = unfold Shown in (refl, unheld (get (schedule_key sc) r) h)
    where
      unheld : (p : Option Preview) → is_some p ≡ false → p ≡ none
      unheld none e = refl
      unheld (some p) e = absurd (ground arith)
