-- ===== src/Dns/Acted.antt =====
-- dns.go: what an action of a tick leaves of the line and of the state.
use agentic_preview.Common.{
  ℕ, ◌+◌, Bool, true, false, not, ◌||◌, List, [], ◌∷◌, ◌++◌, ◌≡◌, ◌⊎◌, inl, inr, refl, arith,
  Bool-cases, eq_text,
}
use agentic_preview.Common.Result.{Result, ok, err}
use agentic_preview.Text.{Text, codes}
use agentic_preview.Schedule.{Schedule, RecycleTarget}
use agentic_preview.Hosts.{hosts_line}
use agentic_preview.Dns.{Client, connected, no_client, DnsConfig, read_hosts_line, write_hosts_line}
use agentic_preview.Hosts.Entries.{IsDnsSchedule}
use agentic_preview.Dns.InPlace.{
  IsStored, InPlace, InPlace-same, TakenOut, TakenOut-same, read_hosts_line-InPlace,
  write_hosts_line-InPlace, write_hosts_line-TakenOut, recycle_pods-map_of,
}
use agentic_preview.Dns.Window.{
  failed_recycle, recycle_all, recycle_from, recycle_pods, unknown, opened, open_dns_window,
  checked, check_dns_window, closed, close_dns_window, act,
}
use agentic_preview.Controller.{ScheduleState}
use agentic_preview.Dns.Told.{
  IsHonest, in_place, gone, Shut, Good, alarm-blocked, alarm-not_gone, recycle_problem-Good,
  recycled-recycle_problem, held-Good, rewritten-Good, close_problem-ne-nil,
}

module _ {W : Type 0} (c : Client W) (cfg : DnsConfig) (sc : Schedule) (kept : IsStored c)
    (d : IsDnsSchedule sc) where
  recycle_pods-recycle_problem :
      (st : ScheduleState) (because : Text) (w : W)
      → (p : Text) × ((recycle_pods c sc st because w).0 ≡ record st { recycle_problem = p })
  unfolding recycle_pods recycle_from failed_recycle
  recycle_pods-recycle_problem st because w = from c sc.recycle
    where
      from :
          (c : Client W) (rs : List RecycleTarget)
          → (p : Text) × ((recycle_from c sc st because rs w).0 ≡ record st { recycle_problem = p })
      from c [] = (st.recycle_problem, refl)
      from (no_client e) (r ∷ rs) = (_, refl)
      from (connected k) (r ∷ rs) =
          recycled-recycle_problem sc st because (recycle_all k (r ∷ rs) w).0

  -- What an action leaves, of a state and a world before it.
  abbrev After : ScheduleState → W → Bool → ScheduleState × W → Type 0
  After st before want t = Good t.0 (InPlace c cfg sc t.1) (Shut c cfg sc st before t.1) want

  recycle_pods-Good :
      {G H : Type 0} (st : ScheduleState) (want : Bool) (because : Text) (w : W)
      → (G → H)
      → Good st (InPlace c cfg sc w) G want
      → Good
          (recycle_pods c sc st because w).0
          (InPlace c cfg sc (recycle_pods c sc st because w).1)
          H
          want
  recycle_pods-Good st want because w f g =
      let (p, e) = recycle_pods-recycle_problem st because w in
      let same = recycle_pods-map_of c sc st because w kept in
      rw e (
        recycle_problem-Good st want p
          (InPlace-same c cfg sc w (recycle_pods c sc st because w).1 same) f g)

  opened-Good :
      {G : Type 0} (st : ScheduleState) (now : ℕ) (r : Result Text Bool) (w : W)
      → st.opened ≡ true
      → ((b : Bool) → r ≡ ok b → InPlace c cfg sc w)
      → Good (opened c sc st now r w).0 (InPlace c cfg sc (opened c sc st now r w).1) G true
  unfolding opened
  opened-Good st now (err e) w o i =
      alarm-blocked (unknown st) now _ (λ h. ground arith) refl o (inl refl)
  opened-Good st now (ok true) w o i =
      recycle_pods-Good _ true _ w (λ g. g) (held-Good st now _ o (i true refl))
  opened-Good st now (ok false) w o i = held-Good st now _ o (i false refl)

  checked-Good :
      {G : Type 0} (st : ScheduleState) (now : ℕ) (r : Result Text Text) (w : W)
      → st.opened ≡ true
      → st.applied ≡ true
      → st.swept ≡ true
      → ((have : Text) → r ≡ ok have → eq_text have (hosts_line sc) ≡ true → InPlace c cfg sc w)
      → Good
          (checked c cfg sc st now r w).0
          (InPlace c cfg sc (checked c cfg sc st now r w).1)
          G
          true
  unfolding checked
  checked-Good st now (err e) w o a s i =
      alarm-blocked (record st { up = false }) now (codes "checking the DNS redirect: " ++ e)
        (λ h. ground arith) refl o (inr s)
  checked-Good st now (ok have) w o a s i = elim (Bool-cases (eq_text have (hosts_line sc))) [
    | inl e ↦ rw e (
      in_place o refl refl a s (i have refl e),
      record { up_applied = inr a; applied_swept = inr s },
    )
    | inr e ↦ rw e (
        rewritten-Good (record st { up = false; re_raises = st.re_raises + 1 }) now
          (write_hosts_line cfg sc c true w).0 o refl
          (λ b q. write_hosts_line-InPlace c cfg sc w b kept d q))
  ]

  closed-Good :
      (st : ScheduleState) (now : ℕ) (sweep : Bool) (r : Result Text Bool) (before w : W)
      → st.opened ≡ false
      → (st.applied ≡ true) ⊎ (st.swept ≡ false)
      → IsHonest st
      → ((b : Bool) → r ≡ ok b → TakenOut c cfg sc before w)
      → After st before false (closed c cfg sc st now sweep r w)
  unfolding closed
  closed-Good st now sweep (err e) before w o q h i =
      alarm-not_gone _ now _ (close_problem-ne-nil cfg sc sweep e) refl o q h.applied_swept
  closed-Good st now sweep (ok changed) before w o q h i = either changed
    where
      shut :
          {G : Type 0}
          → G
          → Good
              (record st { applied = false; up = false; swept = true; problem = [] })
              (InPlace c cfg sc w)
              G
              false
      shut g =
          (gone o refl refl refl refl g, record { up_applied = inl refl; applied_swept = inl refl })

      either :
          (changed : Bool) → After st before false (closed c cfg sc st now sweep (ok changed) w)
      either true =
          recycle_pods-Good _ false _ w
            (λ g. inl (TakenOut-same c cfg sc before w _ (recycle_pods-map_of c sc _ _ w kept) g))
            (shut (i changed refl))
      either false = shut (inl (i changed refl))

  -- Whatever the clock wants and whatever fails, one action on an honest state leaves an honest state
  -- that tells what has become of the line.
  pub act-Good :
      (st : ScheduleState) (want : Bool) (now : ℕ) (w : W)
      → st.opened ≡ want
      → IsHonest st
      → After st w want (act c cfg sc st want now w)
  unfolding act open_dns_window check_dns_window close_dns_window
  act-Good st true now w o h = elim (Bool-cases st.applied) [
    | inl a ↦
        let s : st.swept ≡ true = ground (arith, h.applied_swept) in
        let seen = read_hosts_line cfg sc c w in
        simp a (
          checked-Good st now seen.0 seen.1 o a s
            (λ have q e. read_hosts_line-InPlace c cfg sc w have kept q e))
    | inr a ↦
        let written = write_hosts_line cfg sc c true w in
        simp a (
          opened-Good st now written.0 written.1 o
            (λ b q. write_hosts_line-InPlace c cfg sc w b kept d q))
  ]
  act-Good st false now w o h = elim (Bool-cases (st.applied || not st.swept)) [
    | inl e ↦
        let q : (st.applied ≡ true) ⊎ (st.swept ≡ false) = ground arith in
        let written = write_hosts_line cfg sc c false w in
        simp e (
          closed-Good st now (not st.applied) written.0 w written.1 o q h
            (λ b k. write_hosts_line-TakenOut c cfg sc w b kept k))
    | inr e ↦
        let a : st.applied ≡ false = ground arith in
        let s : st.swept ≡ true = ground arith in
        rw e (
          gone o refl refl a s (inr (a, s, refl)),
          record { up_applied = inl refl; applied_swept = inl a },
        )
  ]
