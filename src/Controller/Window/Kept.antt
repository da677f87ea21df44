-- ===== src/Controller/Window/Kept.antt =====
-- schedule_controller.go: what the window of an intercept schedule leaves of the registry.
use agentic_preview.Common.{
  ℕ, ◌≡◌, refl, Bool, true, false, Option, none, some, arith, leb, ◌-◌, inl, inr, Bool-cases,
}
use agentic_preview.Common.Assoc.{get}
use agentic_preview.Common.Result.{Result, ok, err}
use agentic_preview.Text.{Text}
use agentic_preview.Preview.{ServiceKey, service_key, Preview, key}
use agentic_preview.Registry.{Registry, add, conflicting_mode}
use agentic_preview.Registry.Steady.{
  IsSteady, delete-IsSteady, add-IsSteady, update_all-IsSteady, set_status-IsSteady, Unseen,
}
use agentic_preview.Schedule.{Schedule}
use agentic_preview.Session.{Session, Sessions, session_for}
use agentic_preview.Session.Manager.{
  RpcError, unknown_object, rpc_failed, Disposition, active, waiting, other_disposition,
  InterceptInfo, Manager,
}
use agentic_preview.Session.Intercept.{with_target_host, hosted}
use agentic_preview.Session.Intercept.Raised.{raise_keeps}
use agentic_preview.Controller.{ScheduleState}
use agentic_preview.Controller.Window.{
  schedule_key, schedule_preview, raise_grace, open_raised, open_registered, open_unblocked,
  open_in, open_window, rebuild, check_disposition, check_answer, check_in, check_held,
  check_window, close_held, close_window, settle,
}

pub hosted-Unseen : (h : Text) (k : ServiceKey) → Unseen (hosted h k)
unfolding hosted
hosted-Unseen h k p = ground arith

pub with_target_host-IsSteady :
    (h : Text) (k : ServiceKey) (r : Registry) → IsSteady r → IsSteady (with_target_host h k r)
unfolding with_target_host
with_target_host-IsSteady h k r v = update_all-IsSteady _ r (hosted-Unseen h k) v

module _ {W : Type 0} (m : Manager W) (client : Text) (sessions : Sessions) (sc : Schedule) where
  open_raised-IsSteady :
      (st : ScheduleState) (now : ℕ) (done : Result Text (Unit {0})) (r : Registry) (w : W)
      → IsSteady r
      → IsSteady (open_raised m client sessions sc st now done r w).1
  unfolding open_raised
  open_raised-IsSteady st now (err e) r w v = delete-IsSteady r _ v
  open_raised-IsSteady st now (ok done) r w v = v

  open_registered-IsSteady :
      (st : ScheduleState) (now : ℕ) (r : Registry) (a : Result Text Registry) (w : W)
      → IsSteady r
      → ((r1 : Registry) → a ≡ ok r1 → IsSteady r1)
      → IsSteady (open_registered m client sessions sc st now r a w).1
  unfolding open_registered
  open_registered-IsSteady st now r (err e) w v f = v
  open_registered-IsSteady st now r (ok r1) w v f = open_raised-IsSteady st now _ _ _ (
      raise_keeps m client sessions IsSteady set_status-IsSteady with_target_host-IsSteady
        (schedule_preview sc) r1 w (f r1 refl))

  open_unblocked-IsSteady :
      (st : ScheduleState) (now : ℕ) (r : Registry) (c : Option Preview) (w : W)
      → conflicting_mode r (schedule_preview sc) ≡ c
      → IsSteady r
      → IsSteady (open_unblocked m client sessions sc st now r c w).1
  unfolding open_unblocked
  open_unblocked-IsSteady st now r (some o) w e v = v
  open_unblocked-IsSteady st now r none w e v =
      open_registered-IsSteady st now r (add r (schedule_preview sc) now) w v
        (λ r1 q. add-IsSteady r (schedule_preview sc) now v (unfold schedule_preview in refl) e q)

  pub open_window-IsSteady :
      (st : ScheduleState) (now : ℕ) (r : Registry) (w : W)
      → IsSteady r
      → IsSteady (open_window m client sessions sc st now r w).1
  unfolding open_window
  open_window-IsSteady st now r w v = opened_in (session_for sessions sc.spec.namespace)
    where
      opened_in : (s : Option Session) → IsSteady (open_in m client sessions sc s st now r w).1
      opened_in none = unfold open_in in v
      opened_in (some s) = unfold open_in in (open_unblocked-IsSteady st now r _ w refl v)

  rebuild-IsSteady :
      (p : Preview) (st : ScheduleState) (now : ℕ) (r : Registry) (w : W)
      → IsSteady r
      → IsSteady (rebuild m client sessions sc p st now r w).1
  unfolding rebuild
  rebuild-IsSteady p st now r w v = open_window-IsSteady _ now _ _ (delete-IsSteady r (key p) v)

  check_disposition-IsSteady :
      (p : Preview) (d : Disposition) (st : ScheduleState) (now : ℕ) (r : Registry) (w : W)
      → IsSteady r
      → IsSteady (check_disposition m client sessions sc p d st now r w).1
  unfolding check_disposition
  check_disposition-IsSteady p active st now r w v = v
  check_disposition-IsSteady p waiting st now r w v =
      elim (Bool-cases (leb (now - st.raised_at) raise_grace)) [
        | inl e ↦ simp e v
        | inr e ↦ simp e (rebuild-IsSteady p st now r w v)
      ]
  check_disposition-IsSteady p (other_disposition n) st now r w v = rebuild-IsSteady p st now r w v

  check_answer-IsSteady :
      (p : Preview) (a : Result RpcError InterceptInfo) (st : ScheduleState) (now : ℕ)
      (r : Registry) (w : W)
      → IsSteady r
      → IsSteady (check_answer m client sessions sc p a st now r w).1
  unfolding check_answer
  check_answer-IsSteady p (err (unknown_object e)) st now r w v =
      open_window-IsSteady _ now _ w (delete-IsSteady r (key p) v)
  check_answer-IsSteady p (err (rpc_failed e)) st now r w v = v
  check_answer-IsSteady p (ok ii) st now r w v =
      check_disposition-IsSteady p ii.disposition st now _ w (set_status-IsSteady r _ _ _ v)

  check_window-IsSteady :
      (st : ScheduleState) (now : ℕ) (r : Registry) (w : W)
      → IsSteady r
      → IsSteady (check_window m client sessions sc st now r w).1
  unfolding check_window
  check_window-IsSteady st now r w v = checked_held (get (schedule_key sc) r)
    where
      checked_in :
          (p : Preview) (s : Option Session)
          → IsSteady (check_in m client sessions sc p s st now r w).1
      checked_in p none = unfold check_in in v
      checked_in p (some s) = unfold check_in in (check_answer-IsSteady p _ st now r _ v)

      checked_held :
          (p : Option Preview) → IsSteady (check_held m client sessions sc p st now r w).1
      checked_held none = unfold check_held in v
      checked_held (some p) = unfold check_held in (checked_in p (session_for sessions p.namespace))

  close_window-IsSteady :
      (st : ScheduleState) (r : Registry) (w : W)
      → IsSteady r
      → IsSteady (close_window m client sessions sc st r w).1
  unfolding close_window
  close_window-IsSteady st r w v = closed_held (get (schedule_key sc) r)
    where
      closed_held : (p : Option Preview) → IsSteady (close_held m client sessions sc p st r w).1
      closed_held none = unfold close_held in v
      closed_held (some p) = unfold close_held in (delete-IsSteady r (schedule_key sc) v)

  pub settle-IsSteady :
      (want held : Bool) (st : ScheduleState) (now : ℕ) (r : Registry) (w : W)
      → IsSteady r
      → IsSteady (settle m client sessions sc want held st now r w).1
  unfolding settle
  settle-IsSteady true false st now r w v = open_window-IsSteady st now r w v
  settle-IsSteady true true st now r w v = check_window-IsSteady st now r w v
  settle-IsSteady false true st now r w v = close_window-IsSteady st r w v
  settle-IsSteady false false st now r w v = v
