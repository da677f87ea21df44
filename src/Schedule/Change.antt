-- ===== src/Schedule/Change.antt =====
-- schedule.go: the next change is the first minute at which the schedule is other than it is now.
use agentic_preview.Common.{
  ℕ, zero, suc, ◌+◌, ◌-◌, ◌*◌, ◌%◌, ◌<◌, Bool, true, false, none, some, ◌≡◌, ◌≢◌, inl, inr, arith,
  Bool-cases,
}
use mathlib.Core.Path.{subst}
use agentic_preview.Schedule.{Schedule}
use agentic_preview.Schedule.Clock.{minute}
use agentic_preview.Schedule.Active.{active, same_bool, find_change, fortnight, next_change}

same_bool_eq : (a b : Bool) → same_bool a b ≡ true → a ≡ b
same_bool_eq a b h = ground arith

same_bool_ne : (a b : Bool) → same_bool a b ≡ false → a ≢ b
same_bool_ne a b h = ground arith

-- The schedule is as it is now at each of this many minutes from the one after t.
abbrev pub Unchanged : Schedule → Bool → ℕ → ℕ → Type 0
Unchanged s now t n = (m : ℕ) → m < n → active s (t + suc m * minute) ≡ now

-- The first change is the n-th minute after t.
abbrev pub FirstChange : Schedule → Bool → ℕ → ℕ → ℕ → Type 0
FirstChange s now t n at = (at ≡ t + suc n * minute) × (active s at ≢ now) × Unchanged s now t n

Unchanged-suc :
    (s : Schedule) (now : Bool) (t n : ℕ)
    → active s (t + minute) ≡ now
    → Unchanged s now (t + minute) n
    → Unchanged s now t (suc n)
Unchanged-suc s now t n a u zero l =
    let e : t + minute ≡ t + suc zero * minute = omega arith in subst (λ x. active s x ≡ now) e a
Unchanged-suc s now t n a u (suc m) l =
    let e : t + minute + suc m * minute ≡ t + suc (suc m) * minute = omega arith in
    subst (λ x. active s x ≡ now) e (u m (omega arith))

find_change-none :
    (s : Schedule) (now : Bool) (n t : ℕ) → find_change s now n t ≡ none → Unchanged s now t n
unfolding find_change
find_change-none s now zero t h = λ m l. absurd (omega arith)
find_change-none s now (suc n) t h = elim (Bool-cases (same_bool (active s (t + minute)) now)) [
  | inl e ↦
      Unchanged-suc s now t n (same_bool_eq _ _ e)
        (find_change-none s now n (t + minute) (ground arith))
  | inr e ↦ absurd (ground arith)
]

find_change-some :
    (s : Schedule) (now : Bool) (n t at : ℕ)
    → find_change s now n t ≡ some at
    → (k : ℕ) × (k < n) × FirstChange s now t k at
unfolding find_change
find_change-some s now zero t at h = absurd (ground arith)
find_change-some s now (suc n) t at h = elim (Bool-cases (same_bool (active s (t + minute)) now)) [
  | inl e ↦
      let (k, l, (a, c, u)) = find_change-some s now n (t + minute) at (ground arith) in
      (suc k, omega arith, (omega arith, c, Unchanged-suc s now t k (same_bool_eq _ _ e) u))
  | inr e ↦
      let here : t + minute ≡ at = ground arith in
      (
        0,
        omega arith,
        (omega arith, subst (λ x. active s x ≢ now) here (same_bool_ne _ _ e), none_before),
      )
]
  where
    none_before : Unchanged s now t 0
    none_before m l = absurd (omega arith)

-- What `nextChange` answers is the first whole minute after the moment, within a fortnight, at which
-- `active` is not what it is at the moment.
pub next_change-some :
    (s : Schedule) (from at : ℕ)
    → next_change s from ≡ some at
    → (k : ℕ) × (k < fortnight) × FirstChange s (active s from) (from - from % minute) k at
unfolding next_change
next_change-some s from at h =
    find_change-some s (active s from) fortnight (from - from % minute) at h

-- Where `nextChange` answers nothing, `active` is at each whole minute of the fortnight ahead what it
-- is at the moment.
pub next_change-none :
    (s : Schedule) (from : ℕ)
    → next_change s from ≡ none
    → Unchanged s (active s from) (from - from % minute) fortnight
unfolding next_change
next_change-none s from h = find_change-none s (active s from) fortnight (from - from % minute) h
