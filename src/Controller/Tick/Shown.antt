-- ===== src/Controller/Tick/Shown.antt =====
-- schedule_controller.go: what a tick shows of an intercept schedule.
use agentic_preview.Common.{ℕ, refl, is_some}
use agentic_preview.Common.Assoc.{get}
use agentic_preview.Text.{Text}
use agentic_preview.Preview.{service_key}
use agentic_preview.Schedule.{Schedule}
use agentic_preview.Session.{Sessions}
use agentic_preview.Session.Manager.{Manager}
use agentic_preview.Dns.{Client, DnsConfig}
use agentic_preview.Override.{desired_open}
use agentic_preview.Controller.{begin_tick, schedule_state_for}
use agentic_preview.Controller.Window.{schedule_key, settle}
use agentic_preview.Controller.Window.Shown.{Shown, settle-Shown}
use agentic_preview.Controller.Tick.{Memory, reconcile_schedule}
use agentic_preview.Dns.Reconcile.{schedule_state-put}

module _ {W : Type 0} (m : Manager W) (c : Client W) (client : Text) (dns : DnsConfig)
    (sessions : Sessions) where
  -- After a tick over an intercept schedule, whatever the manager and the name server answer: where the
  -- windows or an override want it open, it is up or has a problem to read, and it is up only while its
  -- intercept is registered; where they want it shut, it is not up and its intercept is not registered.
  pub reconcile_schedule-Shown :
      (sc : Schedule) (now : ℕ) (mem : Memory) (w : W)
      → Shown
          (desired_open mem.overrides sc now).1
          (schedule_key sc)
          (schedule_state_for
            (reconcile_schedule m c client dns sessions sc now mem w).0.states
            sc.spec.name)
          (reconcile_schedule m c client dns sessions sc now mem w).0.registry
  unfolding reconcile_schedule
  reconcile_schedule-Shown sc now mem w =
      let name = sc.spec.name in
      let want = (desired_open mem.overrides sc now).1 in
      let held = is_some (get (schedule_key sc) mem.registry) in
      let st = begin_tick sc (schedule_state_for mem.states name) want now in
      rw
        (schedule_state-put mem.states name
          (settle m client sessions sc want held st now mem.registry w).0)
        (settle-Shown m client sessions sc want held st now mem.registry w refl)
