-- ===== src/Controller/Window/Live.antt =====
-- schedule_controller.go: an open window does come up.
use agentic_preview.Common.{ℕ, ◌≡◌, refl, true, none, some, arith}
use agentic_preview.Common.Result.{Result, ok, err}
use agentic_preview.Text.{Text}
use agentic_preview.Preview.{service_key}
use agentic_preview.Registry.{Registry, name_taken, conflicting_mode}
use agentic_preview.Schedule.{Schedule}
use agentic_preview.Session.{Session, Sessions, session_for}
use agentic_preview.Session.Manager.{Manager}
use agentic_preview.Session.Intercept.Obliged.{IsObliging, raise_obliged}
use agentic_preview.Controller.{ScheduleState}
use agentic_preview.Controller.Window.{
  schedule_key, schedule_preview, open_raised, open_registered, open_unblocked, open_in,
  open_window,
}
use agentic_preview.Controller.Window.Shown.{Shown-Held, open_window-Shown}
use agentic_preview.Registry.Invariant.{add_free}
use agentic_preview.Registry.Steady.{Held}

module _ {W : Type 0} (m : Manager W) (client : Text) (sessions : Sessions) (sc : Schedule)
    (o : IsObliging m client sessions) where
  open_raised_obliged :
      (st : ScheduleState) (now : ℕ) (done : Result Text (Unit {0})) (r : Registry) (w : W)
      → done ≡ ok tt
      → (open_raised m client sessions sc st now done r w).0.up ≡ true
  unfolding open_raised
  open_raised_obliged st now (err e) r w q = absurd (ground arith)
  open_raised_obliged st now (ok done) r w q = refl

  open_registered_obliged :
      (st : ScheduleState) (now : ℕ) (r : Registry) (a : Result Text Registry) (w : W)
      (r1 : Registry) (s : Session)
      → session_for sessions sc.spec.namespace ≡ some s
      → a ≡ ok r1
      → (open_registered m client sessions sc st now r a w).0.up ≡ true
  unfolding open_registered
  open_registered_obliged st now r (err x) w r1 s e q = absurd (ground arith)
  open_registered_obliged st now r (ok r2) w r1 s e q = open_raised_obliged st now _ _ _ (
      raise_obliged m client sessions o (schedule_preview sc) r2 w s (unfold schedule_preview in e))

  -- Where the namespace has a session, no preview of the other mode is on the workload, the name of the
  -- intercept is free, every name has an address of IPv4 among its addresses, and the manager creates
  -- every intercept and prepares it at once, or refuses it once for a dead session of this client that
  -- can be ended and prepares it then, opening the window of a schedule ends with it up and its
  -- intercept registered.
  pub open_window_live :
      (st : ScheduleState) (now : ℕ) (r : Registry) (w : W) (s : Session)
      → session_for sessions sc.spec.namespace ≡ some s
      → conflicting_mode r (schedule_preview sc) ≡ none
      → name_taken (schedule_preview sc) r ≡ none
      → ((open_window m client sessions sc st now r w).0.up ≡ true)
        × Held (schedule_key sc) (open_window m client sessions sc st now r w).1
  open_window_live st now r w s e c n =
      let up_now = came_up in
      let shown = open_window-Shown m client sessions sc st now r w in
      (up_now, Shown-Held _ _ _ shown up_now)
    where
      came_up : (open_window m client sessions sc st now r w).0.up ≡ true
      came_up =
          unfold open_window open_in open_unblocked in
          simp (e, c)
            (open_registered_obliged st now r _ w _ s e (add_free r (schedule_preview sc) now n))
