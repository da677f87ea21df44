-- ===== src/Tests/Dns.antt =====
-- dns.go: the ConfigMap of a DNS schedule.
use agentic_preview.Common.{true, [], ◌∷◌, ◌≡◌, refl}
use agentic_preview.Common.Result.{ok}
use agentic_preview.Text.{codes}
use agentic_preview.Hosts.{hosts_line}
use agentic_preview.Dns.{ConfigMap, Kube, connected, DnsConfig, read_hosts_line, write_hosts_line}
use agentic_preview.Dns.Store.{IsStore, read-write_hosts_line}
use agentic_preview.Dns.Window.{reconcile_dns_schedule}
use agentic_preview.Dns.Told.{Told, Shut}
use agentic_preview.Dns.InPlace.{InPlace, LeavesMap}
use agentic_preview.Dns.Reconcile.{AllHonest, reconcile_dns_schedule-Told}
use agentic_preview.Controller.{ScheduleStates, schedule_state_for}
use agentic_preview.Override.{Overrides, desired_open}
use agentic_preview.Tests.Samples.{sql}
use agentic_preview.Tests.Hosts.{sql-IsDnsSchedule}

-- A cluster that is one ConfigMap and has no pods.
abbrev store : Kube ConfigMap
store = record {
  get_config_map = λ cm. (ok cm, cm);
  update_config_map = λ cm w. (ok tt, cm);
  list_pods = λ ns sel w. (ok [], w);
  delete_pod = λ ns pod w. (ok tt, w);
}

store-IsStore : IsStore store
store-IsStore = record { reread = λ w. refl; updated = λ cm w h. (cm.version, refl) }

store-LeavesMap : LeavesMap store
store-LeavesMap = record { listing = λ ns sel w. refl; deletion = λ ns pod w. refl }

abbrev coredns : DnsConfig
coredns = record { namespace = codes "kube-system"; name = codes "coredns"; key = codes "Corefile" }

abbrev corefile : ConfigMap
corefile = record {
  version = codes "7";
  entries = (codes "Corefile", codes ".:53 {\n    hosts {\n        fallthrough\n    }\n}\n") ∷ [];
}

written : (write_hosts_line coredns sql (connected store) true corefile).0 ≡ ok true
unfolding write_hosts_line
written = refl

read-write_hosts_line_example :
    (read_hosts_line coredns sql
      (connected store)
      (write_hosts_line coredns sql (connected store) true corefile).1).0
    ≡ ok (hosts_line sql)
read-write_hosts_line_example =
    read-write_hosts_line store coredns sql store-IsStore sql-IsDnsSchedule corefile written

-- The tick of `sql` on the store.
abbrev ticked : ScheduleStates × Overrides × ConfigMap
ticked = reconcile_dns_schedule (connected store) coredns sql [] [] 414_000_000_000_000 corefile

ticked_up : (schedule_state_for ticked.0 (codes "sql")).up ≡ true
unfolding reconcile_dns_schedule schedule_state_for
ticked_up = refl

reconcile_dns_schedule-Told_example :
    AllHonest ticked.0
    × Told
        (schedule_state_for ticked.0 (codes "sql"))
        (InPlace (connected store) coredns sql ticked.2)
        (Shut (connected store) coredns sql (schedule_state_for [] (codes "sql")) corefile ticked.2)
        (desired_open [] sql 414_000_000_000_000).1
reconcile_dns_schedule-Told_example =
    reconcile_dns_schedule-Told (connected store) coredns sql [] [] 414_000_000_000_000 corefile
      (store-IsStore, store-LeavesMap) sql-IsDnsSchedule tt
