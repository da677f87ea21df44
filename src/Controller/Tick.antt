-- ===== src/Controller/Tick.antt =====
-- schedule_controller.go: a tick over all the schedules.
pub mod Steady
pub mod Shown
use agentic_preview.Common.{ℕ, Bool, true, false, List, [], ◌∷◌, is_some}
use agentic_preview.Common.Assoc.{get}
use agentic_preview.Text.{Text}
use agentic_preview.Preview.{service_key}
use agentic_preview.Registry.{Registry}
use agentic_preview.Schedule.{Schedule, ScheduleKind, kind_intercept, kind_dns}
use agentic_preview.Session.{Sessions}
use agentic_preview.Session.Manager.{Manager}
use agentic_preview.Override.{Overrides, desired_open}
use agentic_preview.Dns.{Client, DnsConfig}
use agentic_preview.Dns.Window.{reconcile_dns_schedule}
use agentic_preview.Controller.{ScheduleStates, schedule_state_for, put_schedule_state, begin_tick}
use agentic_preview.Controller.Window.{schedule_key, settle}

-- What a tick reads and writes inside the process.
pub record Memory : Type 0 where
  pub states : ScheduleStates
  pub overrides : Overrides
  pub registry : Registry

module _ {W : Type 0} (m : Manager W) (c : Client W) (client : Text) (dns : DnsConfig)
    (sessions : Sessions) where
  -- `reconcileSchedule`
  unfoldable pub reconcile_schedule : Schedule → ℕ → Memory → W → Memory × W
  unfolding schedule_state_for desired_open get begin_tick settle put_schedule_state
  reconcile_schedule sc now mem w =
      let name = sc.spec.name in
      let (over, want, forced) = desired_open mem.overrides sc now in
      let held = is_some (get (schedule_key sc) mem.registry) in
      let st = begin_tick sc (schedule_state_for mem.states name) want now in
      let (st1, r1, w1) = settle m client sessions sc want held st now mem.registry w in
      let next : Memory = record {
        states = put_schedule_state mem.states name st1;
        overrides = over;
        registry = r1;
      } in
      (next, w1)

  unfoldable pub reconcile_kind : ScheduleKind → Schedule → ℕ → Memory → W → Memory × W
  unfolding reconcile_schedule reconcile_dns_schedule
  reconcile_kind kind_dns sc now mem w =
      let (states, over, w1) = reconcile_dns_schedule c dns sc mem.states mem.overrides now w in
      let next : Memory = record mem { states = states; overrides = over } in (next, w1)
  reconcile_kind kind_intercept sc now mem w = reconcile_schedule sc now mem w

  -- `reconcileSchedules`
  unfoldable pub reconcile_schedules : List Schedule → ℕ → Memory → W → Memory × W
  unfolding reconcile_kind
  reconcile_schedules [] now mem w = (mem, w)
  reconcile_schedules (sc ∷ scs) now mem w =
      let (mem1, w1) = reconcile_kind sc.kind sc now mem w in reconcile_schedules scs now mem1 w1
