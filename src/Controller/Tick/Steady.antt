-- ===== src/Controller/Tick/Steady.antt =====
-- schedule_controller.go: a tick keeps the registry as its clients rely on it.
use agentic_preview.Common.{ℕ, List, [], ◌∷◌}
use agentic_preview.Text.{Text}
use agentic_preview.Registry.Steady.{IsSteady}
use agentic_preview.Schedule.{Schedule, ScheduleKind, kind_intercept, kind_dns}
use agentic_preview.Session.{Sessions}
use agentic_preview.Session.Manager.{Manager}
use agentic_preview.Dns.{Client, DnsConfig}
use agentic_preview.Controller.Window.Kept.{settle-IsSteady}
use agentic_preview.Controller.Tick.{
  Memory, reconcile_schedule, reconcile_kind, reconcile_schedules,
}

module _ {W : Type 0} (m : Manager W) (c : Client W) (client : Text) (dns : DnsConfig)
    (sessions : Sessions) where
  reconcile_schedule-IsSteady :
      (sc : Schedule) (now : ℕ) (mem : Memory) (w : W)
      → IsSteady mem.registry
      → IsSteady (reconcile_schedule m c client dns sessions sc now mem w).0.registry
  unfolding reconcile_schedule
  reconcile_schedule-IsSteady sc now mem w v =
      settle-IsSteady m client sessions sc _ _ _ now mem.registry w v

  reconcile_kind-IsSteady :
      (k : ScheduleKind) (sc : Schedule) (now : ℕ) (mem : Memory) (w : W)
      → IsSteady mem.registry
      → IsSteady (reconcile_kind m c client dns sessions k sc now mem w).0.registry
  unfolding reconcile_kind
  reconcile_kind-IsSteady kind_dns sc now mem w v = v
  reconcile_kind-IsSteady kind_intercept sc now mem w v = reconcile_schedule-IsSteady sc now mem w v

  -- Where the registry is well formed, has each workload in one mode, and has no deadline on a
  -- scheduled intercept, it is so after a tick over any schedules, whatever the manager, the name
  -- server and the Kubernetes client answer.
  pub reconcile_schedules-IsSteady :
      (scs : List Schedule) (now : ℕ) (mem : Memory) (w : W)
      → IsSteady mem.registry
      → IsSteady (reconcile_schedules m c client dns sessions scs now mem w).0.registry
  unfolding reconcile_schedules
  reconcile_schedules-IsSteady [] now mem w v = v
  reconcile_schedules-IsSteady (sc ∷ scs) now mem w v =
      reconcile_schedules-IsSteady scs now _ _ (reconcile_kind-IsSteady sc.kind sc now mem w v)
