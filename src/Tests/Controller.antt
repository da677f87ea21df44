-- ===== src/Tests/Controller.antt =====
-- schedule_controller.go: an intercept schedule over a manager that answers.
use agentic_preview.Common.{ℕ, ◌≡◌, refl, inl, true, List, [], ◌∷◌, some}
use agentic_preview.Common.Assoc.{get}
use agentic_preview.Common.Int.{pos}
use agentic_preview.Common.Result.{ok}
use agentic_preview.Text.{Text, codes}
use agentic_preview.Schedule.{ScheduleSpec, Schedule, kind_intercept}
use agentic_preview.Session.{Sessions, session_for}
use agentic_preview.Session.Manager.{Manager}
use agentic_preview.Tests.Session.{here, blocked_manager, blocked_manager-IsObliging}
use agentic_preview.Registry.{Registry, conflicting_mode, name_taken}
use agentic_preview.Registry.Steady.{IsSteady, Held}
use agentic_preview.Override.{desired_open}
use agentic_preview.Preview.{key}
use agentic_preview.Dns.{Client, no_client, DnsConfig}
use agentic_preview.Controller.{ScheduleState, fresh_state, schedule_state_for}
use agentic_preview.Controller.Window.{schedule_key, schedule_preview, open_window}
use agentic_preview.Controller.Window.Shown.{Shown}
use agentic_preview.Controller.Window.Live.{open_window_live}
use agentic_preview.Controller.Tick.{Memory, reconcile_schedule, reconcile_schedules}
use agentic_preview.Controller.Tick.Steady.{reconcile_schedules-IsSteady}
use agentic_preview.Controller.Tick.Shown.{reconcile_schedule-Shown}
use agentic_preview.Tests.Samples.{sql, utc, overnight, checkout, prepared_sample, running}

-- The world outside does not change.
abbrev obliging : Manager (Unit {0})
obliging = record {
  prepare_intercept = λ id spec w. (ok prepared_sample, w);
  create_intercept = λ id spec w. (ok running, w);
  get_intercept = λ id name w. (ok running, w);
  remove_intercept = λ id name w. (ok tt, w);
  release_agent = λ id workload ns w. (ok tt, w);
  depart = λ id w. (ok tt, w);
  lookup_ip = λ host w. (ok (some (codes "10.0.0.7") ∷ []), w);
}

abbrev batch_spec : ScheduleSpec
batch_spec = record {
  name = codes "nightly";
  type = codes "intercept";
  workload = codes "batch";
  namespace = codes "shop";
  port = codes "80";
  service = [];
  target_service = codes "standby";
  target_namespace = codes "shop";
  target_port = pos 80;
  location = [];
  hostname = [];
  redirect_to = [];
  recycle_pods = [];
  windows = [];
}

abbrev nightly : Schedule
nightly = record {
  spec = batch_spec;
  kind = kind_intercept;
  intercept_name = codes "sched-nightly";
  target_service = codes "standby";
  target_namespace = codes "shop";
  target_port = pos 80;
  port_id = codes "80";
  hostname = [];
  redirect_to = [];
  recycle = [];
  loc = utc;
  windows = overnight ∷ [];
}

abbrev shop_session : Sessions
shop_session = (codes "shop", record { namespace = codes "shop"; session_id = codes "live" }) ∷ []

abbrev one_preview : Registry
one_preview = (key checkout, checkout) ∷ []

one_preview-IsSteady : IsSteady one_preview
unfolding get
one_preview-IsSteady = record {
  is_registry = record { distinct = (refl, tt); keyed = (refl, tt); names = (tt, tt) };
  single_mode = (tt, tt);
  scheduled_live = (inl refl, tt);
}

abbrev before_tick : Memory
before_tick = record { states = []; overrides = []; registry = one_preview }

abbrev no_dns : DnsConfig
no_dns = record { namespace = codes "kube-system"; name = codes "coredns"; key = codes "Corefile" }

abbrev offline : Client (Unit {0})
offline = no_client (codes "off")

-- Friday, an hour before midnight.
abbrev friday_night : ℕ
friday_night = 428_400_000_000_000

came_up :
    (schedule_state_for
      (reconcile_schedule obliging offline
        (codes "agentic")
        no_dns
        shop_session
        nightly
        friday_night
        before_tick
        tt).0.states
      (codes "nightly")).up
    ≡ true
unfolding reconcile_schedule
came_up = refl

reconcile_schedules-IsSteady_example :
    IsSteady
      (reconcile_schedules obliging offline
        (codes "agentic")
        no_dns
        shop_session
        (nightly ∷ sql ∷ [])
        friday_night
        before_tick
        tt).0.registry
reconcile_schedules-IsSteady_example =
    reconcile_schedules-IsSteady obliging offline (codes "agentic") no_dns shop_session
      (nightly ∷ sql ∷ []) friday_night before_tick tt one_preview-IsSteady

reconcile_schedule-Shown_example :
    Shown
      (desired_open [] nightly friday_night).1
      (schedule_key nightly)
      (schedule_state_for
        (reconcile_schedule obliging offline
          (codes "agentic")
          no_dns
          shop_session
          nightly
          friday_night
          before_tick
          tt).0.states
        (codes "nightly"))
      (reconcile_schedule obliging offline
        (codes "agentic")
        no_dns
        shop_session
        nightly
        friday_night
        before_tick
        tt).0.registry
reconcile_schedule-Shown_example =
    reconcile_schedule-Shown obliging offline (codes "agentic") no_dns shop_session nightly
      friday_night before_tick tt

-- A manager that refuses until a dead session is ended.
abbrev opened_late : ScheduleState × Registry × List Text
opened_late =
    open_window blocked_manager (codes "agentic") here nightly fresh_state 7 one_preview []

open_window_live_example : (opened_late.0.up ≡ true) × Held (schedule_key nightly) opened_late.1
unfolding session_for conflicting_mode name_taken schedule_preview
open_window_live_example =
    open_window_live blocked_manager (codes "agentic") here nightly blocked_manager-IsObliging
      fresh_state 7 one_preview [] (record { namespace = codes "shop"; session_id = codes "live" })
      refl refl refl
