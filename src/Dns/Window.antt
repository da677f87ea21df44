-- ===== src/Dns/Window.antt =====
-- dns.go, the reconcile half: what a tick does with a DNS schedule. Log lines are left out.
use agentic_preview.Common.{
  ℕ, ◌+◌, Bool, true, false, not, ◌&&◌, ◌||◌, List, [], ◌∷◌, ◌++◌, if◌then◌else◌, eq_text, text_key,
}
use agentic_preview.Common.Result.{Result, ok, err}
use agentic_preview.Text.{Text, codes, join}
use agentic_preview.Schedule.{Schedule, RecycleTarget}
use agentic_preview.Hosts.{hosts_line}
use agentic_preview.Dns.{
  Kube, Client, connected, no_client, DnsConfig, dns_target_ref, no_api, read_hosts_line,
  write_hosts_line,
}
use agentic_preview.Controller.{
  ScheduleState, ScheduleStates, alarm, begin_tick, schedule_state_for, put_schedule_state,
}
use agentic_preview.Override.{Overrides, desired_open}

-- The message that a pod of this name in this namespace could not be deleted.
abbrev pub not_deleted : Text → Text → Text → Text
not_deleted pod ns e = codes "deleting " ++ (pod ++ (codes "." ++ (ns ++ (codes ": " ++ e))))

abbrev pub not_listed : RecycleTarget → Text → Text
not_listed r e =
    codes "listing " ++ (r.selector ++ (codes " in " ++ (r.namespace ++ (codes ": " ++ e))))

abbrev pub add_failure : Text → Result Text (Unit {0}) → List Text → List Text
add_failure message (ok done) failed = failed
add_failure message (err e) failed = (message ++ e) ∷ failed

-- `failedRecycle`
unfoldable pub failed_recycle : Schedule → ScheduleState → Text → List Text → ScheduleState
unfolding join
failed_recycle sc st because failed = record st {
  recycle_problem =
      codes "recycling pods after "
      ++ (sc.hostname
          ++ (codes " "
              ++ (because
                  ++ (codes ": "
                      ++ (join (codes "; ") failed
                          ++ codes " - they may still hold connections to the old address")))));
}

abbrev pub recycled : Schedule → ScheduleState → Text → List Text → ScheduleState
recycled sc st because [] = record st { recycle_problem = [] }
recycled sc st because (f ∷ fs) = failed_recycle sc st because (f ∷ fs)

-- The window is open and the line is in place.
abbrev pub held : ScheduleState → ℕ → ScheduleState
held st now = record st {
  up = true;
  applied = true;
  swept = true;
  problem = [];
  last_alarm = 0;
  raised_at = now;
}

-- Not knowing whether the line is there.
abbrev pub unknown : ScheduleState → ScheduleState
unknown st = record st { up = false; applied = false; swept = false }

-- The end of `checkDNSWindow`, where the line was written again.
unfoldable pub rewritten : ScheduleState → ℕ → Result Text Bool → ScheduleState
unfolding alarm
rewritten st now (err e) =
    alarm (record st { applied = false; swept = false }) now
      (codes "re-applying the DNS redirect: " ++ e)
rewritten st now (ok changed) = held st now

abbrev pub close_problem : DnsConfig → Schedule → Bool → Text → Text
close_problem cfg sc true e =
    codes "checking "
    ++ (dns_target_ref cfg
        ++ (codes " for a stale redirect of "
            ++ (sc.hostname
                ++ (codes ": " ++ (e ++ (codes " - it may still resolve to " ++ sc.redirect_to))))))
close_problem cfg sc false e =
    codes "closing the DNS redirect: "
    ++ (e ++ (codes " - " ++ (sc.hostname ++ (codes " may still resolve to " ++ sc.redirect_to))))

module _ {W : Type 0} where
  -- The inner loop of `recyclePods`: what failed, in order.
  unfoldable pub delete_pods : Kube W → Text → List Text → W → List Text × W
  delete_pods k ns [] w = ([], w)
  delete_pods k ns (pod ∷ pods) w =
      let (r, w1) = k.delete_pod ns pod w in
      let (failed, w2) = delete_pods k ns pods w1 in
      (add_failure (not_deleted pod ns []) r failed, w2)

  unfoldable pub recycle_target :
      Kube W → RecycleTarget → Result Text (List Text) → W → List Text × W
  unfolding delete_pods
  recycle_target k r (err e) w = (not_listed r e ∷ [], w)
  recycle_target k r (ok pods) w = delete_pods k r.namespace pods w

  -- The outer loop of `recyclePods`.
  unfoldable pub recycle_all : Kube W → List RecycleTarget → W → List Text × W
  unfolding recycle_target
  recycle_all k [] w = ([], w)
  recycle_all k (r ∷ rs) w =
      let (pods, w1) = k.list_pods r.namespace r.selector w in
      let (failed, w2) = recycle_target k r pods w1 in
      let (more, w3) = recycle_all k rs w2 in (failed ++ more, w3)

  -- `recyclePods` on targets
  unfoldable pub recycle_from :
      Client W → Schedule → ScheduleState → Text → List RecycleTarget → W → ScheduleState × W
  unfolding recycle_all
  recycle_from c sc st because [] w = (st, w)
  recycle_from (no_client e) sc st because (r ∷ rs) w =
      (failed_recycle sc st because (no_api e ∷ []), w)
  recycle_from (connected k) sc st because (r ∷ rs) w =
      let (failed, w1) = recycle_all k (r ∷ rs) w in (recycled sc st because failed, w1)

  -- `recyclePods`
  unfoldable pub recycle_pods : Client W → Schedule → ScheduleState → Text → W → ScheduleState × W
  unfolding recycle_from
  recycle_pods c sc st because w = recycle_from c sc st because sc.recycle w

  unfoldable pub opened :
      Client W → Schedule → ScheduleState → ℕ → Result Text Bool → W → ScheduleState × W
  unfolding alarm recycle_pods
  opened c sc st now (err e) w =
      (alarm (unknown st) now (codes "opening the DNS redirect: " ++ e), w)
  opened c sc st now (ok changed) w =
      let st1 = record (held st now) { raises = st.raises + 1 } in
      if changed
      then recycle_pods c sc st1 (codes "now resolves to " ++ sc.redirect_to) w
      else (st1, w)

  -- `openDNSWindow`
  unfoldable pub open_dns_window :
      Client W → DnsConfig → Schedule → ScheduleState → ℕ → W → ScheduleState × W
  unfolding write_hosts_line opened
  open_dns_window c cfg sc st now w =
      let (r, w1) = write_hosts_line cfg sc c true w in opened c sc st now r w1

  unfoldable pub checked :
      Client W → DnsConfig → Schedule → ScheduleState → ℕ → Result Text Text → W → ScheduleState × W
  unfolding alarm eq_text hosts_line write_hosts_line rewritten
  checked c cfg sc st now (err e) w =
      (alarm (record st { up = false }) now (codes "checking the DNS redirect: " ++ e), w)
  checked c cfg sc st now (ok have) w =
      let (r, w1) = write_hosts_line cfg sc c true w in
      if eq_text have (hosts_line sc)
      then (record st { up = true; problem = []; last_alarm = 0 }, w)
      else (rewritten (record st { up = false; re_raises = st.re_raises + 1 }) now r, w1)

  -- `checkDNSWindow`
  unfoldable pub check_dns_window :
      Client W → DnsConfig → Schedule → ScheduleState → ℕ → W → ScheduleState × W
  unfolding read_hosts_line checked
  check_dns_window c cfg sc st now w =
      let (r, w1) = read_hosts_line cfg sc c w in checked c cfg sc st now r w1

  unfoldable pub closed :
      Client W
      → DnsConfig
      → Schedule
      → ScheduleState
      → ℕ
      → Bool
      → Result Text Bool
      → W
      → ScheduleState × W
  unfolding alarm recycle_pods dns_target_ref
  closed c cfg sc st now sweep (err e) w =
      (alarm (record st { up = false }) now (close_problem cfg sc sweep e), w)
  closed c cfg sc st now sweep (ok changed) w =
      let st1 = record st { applied = false; up = false; swept = true; problem = [] } in
      if changed then recycle_pods c sc st1 (codes "resolves normally again") w else (st1, w)

  -- `closeDNSWindow`
  unfoldable pub close_dns_window :
      Client W → DnsConfig → Schedule → ScheduleState → ℕ → Bool → W → ScheduleState × W
  unfolding write_hosts_line closed
  close_dns_window c cfg sc st now sweep w =
      let (r, w1) = write_hosts_line cfg sc c false w in closed c cfg sc st now sweep r w1

  -- The switch of `reconcileDNSSchedule`.
  unfoldable pub act :
      Client W → DnsConfig → Schedule → ScheduleState → Bool → ℕ → W → ScheduleState × W
  unfolding open_dns_window check_dns_window close_dns_window
  act c cfg sc st want now w =
      if want && not st.applied
      then open_dns_window c cfg sc st now w
      else if want
      then check_dns_window c cfg sc st now w
      else if st.applied || not st.swept
      then close_dns_window c cfg sc st now (not st.applied) w
      else (record st { up = false; problem = [] }, w)

  -- `reconcileDNSSchedule`
  unfoldable pub reconcile_dns_schedule :
      Client W
      → DnsConfig
      → Schedule
      → ScheduleStates
      → Overrides
      → ℕ
      → W
      → ScheduleStates × Overrides × W
  unfolding schedule_state_for desired_open begin_tick act put_schedule_state
  reconcile_dns_schedule c cfg sc states over now w =
      let (over1, want, forced) = desired_open over sc now in
      let st = begin_tick sc (schedule_state_for states sc.spec.name) want now in
      let (st1, w1) = act c cfg sc st want now w in
      (put_schedule_state states sc.spec.name st1, over1, w1)
