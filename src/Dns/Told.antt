-- ===== src/Dns/Told.antt =====
-- dns.go: what the state of a DNS schedule tells after a tick.
use agentic_preview.Common.{
  ℕ, Bool, true, false, List, [], ◌∷◌, ◌++◌, ◌≡◌, ◌≢◌, ◌⊎◌, inl, inr, refl, arith,
}
use agentic_preview.Common.Result.{Result, ok, err}
use agentic_preview.Text.{Text, codes}
use agentic_preview.Schedule.{Schedule}
use agentic_preview.Dns.{Client, DnsConfig}
use agentic_preview.Dns.InPlace.{TakenOut}
use agentic_preview.Dns.Window.{failed_recycle, recycled, held, rewritten, close_problem}
use agentic_preview.Controller.{ScheduleState, alarm}
use agentic_preview.Controller.Alarm.{alarm-problem}

-- Believed up only where the line is believed in place, and in place only where the content is known.
pub record IsHonest (st : ScheduleState) : Type 0 where
  pub up_applied : (st.up ≡ false) ⊎ (st.applied ≡ true)
  pub applied_swept : (st.applied ≡ false) ⊎ (st.swept ≡ true)

-- What the state says: the window is open and `Here` holds; open, not up and why; shut, held to be
-- gone, and `Gone` holds; or shut, not held to be gone, why, and tried again at the next tick.
pub data Told (st : ScheduleState) (Here Gone : Type 0) : Bool → Type 0 where
  in_place :
      st.opened ≡ true
      → st.up ≡ true
      → st.problem ≡ []
      → st.applied ≡ true
      → st.swept ≡ true
      → Here
      → Told st Here Gone true
  blocked : st.opened ≡ true → st.up ≡ false → st.problem ≢ [] → Told st Here Gone true
  gone :
      st.opened ≡ false
      → st.up ≡ false
      → st.problem ≡ []
      → st.applied ≡ false
      → st.swept ≡ true
      → Gone
      → Told st Here Gone false
  not_gone :
      st.opened ≡ false
      → st.up ≡ false
      → st.problem ≢ []
      → (st.applied ≡ true) ⊎ (st.swept ≡ false)
      → Told st Here Gone false

-- The line was taken out between the two worlds, or the state held it to be gone already and the
-- world is what it was.
abbrev pub Shut : {W : Type 0} → Client W → DnsConfig → Schedule → ScheduleState → W → W → Type 0
Shut c cfg sc st before after =
    TakenOut c cfg sc before after ⊎ ((st.applied ≡ false) × (st.swept ≡ true) × (after ≡ before))

-- What a state tells, and that it is honest, where the clock wants the window open or shut.
abbrev pub Good : ScheduleState → Type 0 → Type 0 → Bool → Type 0
Good st I G want = Told st I G want × IsHonest st

-- A state that has just been given a problem.
pub alarm-blocked :
    {I G : Type 0} (st : ScheduleState) (now : ℕ) (p : Text)
    → p ≢ []
    → st.up ≡ false
    → st.opened ≡ true
    → (st.applied ≡ false) ⊎ (st.swept ≡ true)
    → Good (alarm st now p) I G true
alarm-blocked st now p n u o a =
    let (at, e) = alarm-problem st now p in
    rw e (blocked o u n, record { up_applied = inl u; applied_swept = a })

pub alarm-not_gone :
    {I G : Type 0} (st : ScheduleState) (now : ℕ) (p : Text)
    → p ≢ []
    → st.up ≡ false
    → st.opened ≡ false
    → (st.applied ≡ true) ⊎ (st.swept ≡ false)
    → (st.applied ≡ false) ⊎ (st.swept ≡ true)
    → Good (alarm st now p) I G false
alarm-not_gone st now p n u o r a =
    let (at, e) = alarm-problem st now p in
    rw e (not_gone o u n r, record { up_applied = inl u; applied_swept = a })

pub recycle_problem-Good :
    {I J G H : Type 0} (st : ScheduleState) (want : Bool) (p : Text)
    → (I → J)
    → (G → H)
    → Good st I G want
    → Good (record st { recycle_problem = p }) J H want
recycle_problem-Good {I = I} {J = J} {G = G} {H = H} st want p f g (t, h) =
    (told want t, record { up_applied = h.up_applied; applied_swept = h.applied_swept })
  where
    told : (want : Bool) → Told st I G want → Told (record st { recycle_problem = p }) J H want
    told true (in_place o u e a s i) = in_place o u e a s (f i)
    told true (blocked o u e) = blocked o u e
    told false (gone o u e a s i) = gone o u e a s (g i)
    told false (not_gone o u e r) = not_gone o u e r

pub recycled-recycle_problem :
    (sc : Schedule) (st : ScheduleState) (because : Text) (failed : List Text)
    → (p : Text) × (recycled sc st because failed ≡ record st { recycle_problem = p })
unfolding failed_recycle
recycled-recycle_problem sc st because [] = ([], refl)
recycled-recycle_problem sc st because (f ∷ fs) = (_, refl)

pub held-Good :
    {I G : Type 0} (st : ScheduleState) (now n : ℕ)
    → st.opened ≡ true
    → I
    → Good (record (held st now) { raises = n }) I G true
held-Good st now n o i =
    (in_place o refl refl refl refl i, record { up_applied = inr refl; applied_swept = inr refl })

pub rewritten-Good :
    {I G : Type 0} (st : ScheduleState) (now : ℕ) (r : Result Text Bool)
    → st.opened ≡ true
    → st.up ≡ false
    → ((b : Bool) → r ≡ ok b → I)
    → Good (rewritten st now r) I G true
unfolding rewritten
rewritten-Good st now (err e) o u i =
    alarm-blocked (record st { applied = false; swept = false }) now
      (codes "re-applying the DNS redirect: " ++ e) (λ h. ground arith) u o (inl refl)
rewritten-Good st now (ok changed) o u i = held-Good st now st.raises o (i changed refl)

pub close_problem-ne-nil :
    (cfg : DnsConfig) (sc : Schedule) (sweep : Bool) (e : Text) → close_problem cfg sc sweep e ≢ []
close_problem-ne-nil cfg sc true e h = ground arith
close_problem-ne-nil cfg sc false e h = ground arith
