-- ===== src/Dns/Reconcile.antt =====
-- dns.go: a tick over a DNS schedule, from the stored state to the stored state.
use agentic_preview.Common.{
  ℕ, Bool, not, ◌||◌, ◌≡◌, inl, inr, refl, sym, ◌∙◌, true, false, arith, All, Bool-cases,
  Option-cases, none, some, Option, ltb, ◌==◌, text_key,
}
use agentic_preview.Common.Assoc.{get, put-All, get-All, get-put_self}
use agentic_preview.Text.{Text}
use agentic_preview.Schedule.{Schedule}
use agentic_preview.Schedule.Active.{same_bool, next_change}
use agentic_preview.Dns.{Client, DnsConfig}
use agentic_preview.Dns.Window.{act, reconcile_dns_schedule}
use agentic_preview.Dns.Told.{IsHonest, Told, in_place, blocked, gone, not_gone, Shut}
use agentic_preview.Dns.Acted.{act-Good}
use agentic_preview.Dns.InPlace.{IsStored, InPlace}
use agentic_preview.Hosts.Entries.{IsDnsSchedule}
use agentic_preview.Override.{Overrides, desired_open}
use agentic_preview.Controller.{
  ScheduleState, ScheduleStates, foreseen, turned, begin_tick, schedule_state_for,
  put_schedule_state,
}

foreseen-IsHonest :
    (st : ScheduleState) (want : Bool) (at : Option ℕ)
    → (st.opened ≡ want) × IsHonest st
    → ((foreseen st at).opened ≡ want) × IsHonest (foreseen st at)
foreseen-IsHonest st want none h = h
foreseen-IsHonest st want (some at) (o, h) =
    (o, record { up_applied = h.up_applied; applied_swept = h.applied_swept })

turned-IsHonest :
    (st : ScheduleState) (want : Bool) (now : ℕ)
    → IsHonest st
    → ((turned st want now).opened ≡ want) × IsHonest (turned st want now)
unfolding turned
turned-IsHonest st want now h =
    elim (Bool-cases (st.since == 0 || not (same_bool want st.opened))) [
      | inl e ↦ simp e (refl, record { up_applied = h.up_applied; applied_swept = h.applied_swept })
      | inr e ↦ simp e (same want st.opened (ground arith), h)
    ]
  where
    same : (a b : Bool) → same_bool a b ≡ true → b ≡ a
    same a b h = ground arith

begin_tick-IsHonest :
    (sc : Schedule) (st : ScheduleState) (want : Bool) (now : ℕ)
    → IsHonest st
    → ((begin_tick sc st want now).opened ≡ want) × IsHonest (begin_tick sc st want now)
unfolding begin_tick
begin_tick-IsHonest sc st want now h =
    let st1 = turned st want now in
    elim (Bool-cases (st1.next_change == 0 || not (ltb now st1.next_change))) [
      | inl e ↦
          simp e (foreseen-IsHonest st1 want (next_change sc now) (turned-IsHonest st want now h))
      | inr e ↦ simp e (turned-IsHonest st want now h)
    ]

abbrev pub AllHonest : ScheduleStates → Type 0
AllHonest = All (λ e. IsHonest e.1)

schedule_state_for-IsHonest :
    (states : ScheduleStates) (name : Text)
    → AllHonest states
    → IsHonest (schedule_state_for states name)
unfolding schedule_state_for
schedule_state_for-IsHonest states name h = elim (Option-cases (get name states)) [
  | inl e ↦ rw e (record { up_applied = inl refl; applied_swept = inl refl })
  | inr (st, e) ↦ rw e (get-All (λ x. IsHonest x.1) name st states h e)
]

pub schedule_state-put :
    (states : ScheduleStates) (name : Text) (st : ScheduleState)
    → schedule_state_for (put_schedule_state states name st) name ≡ st
unfolding schedule_state_for put_schedule_state
schedule_state-put states name st = rw (get-put_self name st states) refl

put_schedule_state-AllHonest :
    (states : ScheduleStates) (name : Text) (st : ScheduleState)
    → AllHonest states
    → IsHonest st
    → AllHonest (put_schedule_state states name st)
unfolding put_schedule_state
put_schedule_state-AllHonest states name st h g = put-All (λ x. IsHonest x.1) name st states g h

-- Two states hold the same of the line.
abbrev SameLine : ScheduleState → ScheduleState → Type 0
SameLine a b = (a.applied ≡ b.applied) × (a.swept ≡ b.swept)

turned-SameLine : (st : ScheduleState) (want : Bool) (now : ℕ) → SameLine (turned st want now) st
unfolding turned
turned-SameLine st want now = elim (Bool-cases (st.since == 0 || not (same_bool want st.opened))) [
  | inl e ↦ simp e (refl, refl)
  | inr e ↦ simp e (refl, refl)
]

foreseen-SameLine :
    (st was : ScheduleState) (at : Option ℕ) → SameLine st was → SameLine (foreseen st at) was
foreseen-SameLine st was none h = h
foreseen-SameLine st was (some at) h = h

-- A tick does not change what the state holds of the line before it acts.
begin_tick-SameLine :
    (sc : Schedule) (st : ScheduleState) (want : Bool) (now : ℕ)
    → SameLine (begin_tick sc st want now) st
unfolding begin_tick
begin_tick-SameLine sc st want now =
    let st1 = turned st want now in
    elim (Bool-cases (st1.next_change == 0 || not (ltb now st1.next_change))) [
      | inl e ↦ simp e (foreseen-SameLine st1 st (next_change sc now) (turned-SameLine st want now))
      | inr e ↦ simp e (turned-SameLine st want now)
    ]

Told-Shut :
    {W I : Type 0} (c : Client W) (cfg : DnsConfig) (sc : Schedule) (st a b : ScheduleState)
    (v w : W) (want : Bool)
    → SameLine a b
    → Told st I (Shut c cfg sc a v w) want
    → Told st I (Shut c cfg sc b v w) want
Told-Shut c cfg sc st a b v w true e (in_place o u p l s i) = in_place o u p l s i
Told-Shut c cfg sc st a b v w true e (blocked o u p) = blocked o u p
Told-Shut c cfg sc st a b v w false e (gone o u p l s (inl t)) = gone o u p l s (inl t)
Told-Shut c cfg sc st a b v w false e (gone o u p l s (inr t)) =
    gone o u p l s (inr (sym e.0 ∙ t.0, sym e.1 ∙ t.1, t.2))
Told-Shut c cfg sc st a b v w false e (not_gone o u p q) = not_gone o u p q

module _ {W : Type 0} (c : Client W) (cfg : DnsConfig) (sc : Schedule) where
  -- While nobody else writes the ConfigMap, and listing and deleting pods leave it alone, a tick over a
  -- DNS schedule as compiled, from honest states, whatever fails, leaves all states honest, and the
  -- state of the schedule open exactly where the windows or an override want it open. Where it is
  -- open, it is up and a read of the ConfigMap returns the schedule's line, or it is not up with a
  -- problem. Where it is shut without a problem, the tick has taken the first line of the schedule's
  -- tag out of the content, where none is found then unless there were several, or the state before
  -- already held the line to be gone and the tick changed nothing outside. Where it is shut with a
  -- problem, the state still holds the line to be applied or not swept.
  pub reconcile_dns_schedule-Told :
      (states : ScheduleStates) (over : Overrides) (now : ℕ) (w : W)
      → IsStored c
      → IsDnsSchedule sc
      → AllHonest states
      → AllHonest (reconcile_dns_schedule c cfg sc states over now w).0
        × Told
            (schedule_state_for (reconcile_dns_schedule c cfg sc states over now w).0 sc.spec.name)
            (InPlace c cfg sc (reconcile_dns_schedule c cfg sc states over now w).2)
            (Shut c cfg sc
              (schedule_state_for states sc.spec.name)
              w
              (reconcile_dns_schedule c cfg sc states over now w).2)
            (desired_open over sc now).1
  unfolding reconcile_dns_schedule
  reconcile_dns_schedule-Told states over now w kept d h =
      let name = sc.spec.name in
      let want = (desired_open over sc now).1 in
      let old = schedule_state_for states name in
      let st = begin_tick sc old want now in
      let b = begin_tick-IsHonest sc old want now (schedule_state_for-IsHonest states name h) in
      let g = act-Good c cfg sc kept d st want now w b.0 b.1 in
      let st1 = (act c cfg sc st want now w).0 in
      let w1 = (act c cfg sc st want now w).1 in
      (
        put_schedule_state-AllHonest states name st1 h g.1,
        rw (schedule_state-put states name st1)
            (Told-Shut c cfg sc st1 st old w w1 want (begin_tick-SameLine sc old want now) g.0),
      )
