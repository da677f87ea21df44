-- ===== src/Schedule/Opening.antt =====
-- schedule.go: `active` answers whether some window covers the moment, whatever day it opened on.
use agentic_preview.Common.{
  ℕ, zero, suc, ◌+◌, ◌-◌, ◌*◌, ◌/◌, ◌%◌, ◌≤◌, ◌<◌, Bool, true, false, List, [], ◌∷◌, ◌≡◌, ◌↔◌, ◌⊎◌,
  inl, inr, arith, refl, get_or, any, All, In, In-All, Bool-cases,
}
use mathlib.Core.Path.{subst}
use agentic_preview.Schedule.{CompiledWindow, Location, Schedule}
use agentic_preview.Schedule.Clock.{day}
use agentic_preview.Schedule.Active.{weekday, covers, opened_within, window_open, active}

-- What a calendar is: the days are in order, a moment falls in the day that has begun and not ended,
-- and any number of days together are shorter than as many times 24 hours by no more than the shift
-- of the clocks.
pub record IsCalendar (loc : Location) (shift : ℕ) : Type 0 where
  pub begun : (t : ℕ) → loc.midnight (loc.civil_day t) ≤ t
  pub not_ended : (t : ℕ) → t < loc.midnight (loc.civil_day t + 1)
  pub in_order : (d e : ℕ) → d ≤ e → loc.midnight d ≤ loc.midnight e
  pub lasting : (d n : ℕ) → loc.midnight d + n * day ≤ loc.midnight (d + n) + shift

-- The window that opens on this day covers the moment.
abbrev pub Covers : Location → CompiledWindow → ℕ → ℕ → Type 0
Covers loc w t d =
    (get_or w.days (weekday d) false ≡ true)
    × (loc.midnight d + w.start ≤ t)
    × (t < loc.midnight d + w.start + w.length)

-- What is left of a window's length after whole days fits, with its start, into two days less the
-- shift of the clocks.
abbrev pub Fits : ℕ → CompiledWindow → Type 0
Fits shift w = w.start + w.length % day + shift ≤ 2 * day

covers_iff :
    (loc : Location) (w : CompiledWindow) (t d : ℕ) → (covers loc w t d ≡ true) ↔ Covers loc w t d
unfolding covers
covers_iff loc w t d = ground arith

opened_within_sound :
    (loc : Location) (w : CompiledWindow) (t n : ℕ)
    → opened_within loc w t n ≡ true
    → (d : ℕ) × (covers loc w t d ≡ true)
unfolding opened_within
opened_within_sound loc w t zero h = (loc.civil_day t, h)
opened_within_sound loc w t (suc n) h = elim (Bool-cases (opened_within loc w t n)) [
  | inl e ↦ opened_within_sound loc w t n e
  | inr e ↦ (loc.civil_day t - suc n, ground arith)
]

≤-cases : (k n : ℕ) → k ≤ suc n → (k ≤ n) ⊎ (k ≡ suc n)
≤-cases k n l = omega arith

opened_within_complete :
    (loc : Location) (w : CompiledWindow) (t n k : ℕ)
    → k ≤ n
    → covers loc w t (loc.civil_day t - k) ≡ true
    → opened_within loc w t n ≡ true
unfolding opened_within
opened_within_complete loc w t zero k l h =
    let e : loc.civil_day t - k ≡ loc.civil_day t = omega arith in
    subst (λ d. covers loc w t d ≡ true) e h
opened_within_complete loc w t (suc n) k l h = elim (≤-cases k n l) [
  | inl b ↦ let ih = opened_within_complete loc w t n k b h in ground arith
  | inr e ↦ let last = subst (λ x. covers loc w t (loc.civil_day t - x) ≡ true) e h in ground arith
]

module _ (loc : Location) (shift : ℕ) (c : IsCalendar loc shift) (w : CompiledWindow)
    (f : Fits shift w) where
  covering_day : (t d : ℕ) → Covers loc w t d → d ≤ loc.civil_day t
  covering_day t d (_, l, _) = ground (arith, c.in_order (loc.civil_day t + 1) d, c.not_ended t)

  days_back : (t d : ℕ) → Covers loc w t d → loc.civil_day t - d ≤ w.length / day + 1
  days_back t d v =
      let gone = loc.civil_day t - d in
      let (_, l, u) = v in
      let in_day = covering_day t d v in
      let long = c.lasting d gone in
      let e : loc.civil_day t ≡ d + gone = omega arith in
      let here : loc.midnight (d + gone) ≤ t = subst (λ e. loc.midnight e ≤ t) e (c.begun t) in
      omega arith

  window_open_iff : (t : ℕ) → (window_open loc t w ≡ true) ↔ ((d : ℕ) × Covers loc w t d)
  unfolding window_open
  window_open_iff t = (
    (λ h.
        let (d, v) = opened_within_sound loc w t (w.length / day + 1) h in
        (d, (covers_iff loc w t d).0 v)),
    (λ (d, v).
        let e : d ≡ loc.civil_day t - (loc.civil_day t - d) = omega (arith, covering_day t d v) in
        opened_within_complete loc w t _ (loc.civil_day t - d) (days_back t d v)
          (subst (λ d. covers loc w t d ≡ true) e ((covers_iff loc w t d).1 v))),
  )

In-any :
    (p : CompiledWindow → Bool) (w : CompiledWindow) (ws : List CompiledWindow)
    → In w ws
    → p w ≡ true
    → any p ws ≡ true
unfolding any
In-any p w [] i h = absurd i
In-any p w (v ∷ ws) (inl e) h = let here = subst (λ x. p x ≡ true) e h in ground arith
In-any p w (v ∷ ws) (inr i) h = let ih = In-any p w ws i h in ground arith

any-In :
    (p : CompiledWindow → Bool) (ws : List CompiledWindow)
    → any p ws ≡ true
    → (w : CompiledWindow) × In w ws × (p w ≡ true)
unfolding any
any-In p [] h = absurd (ground arith)
any-In p (v ∷ ws) h = elim (Bool-cases (p v)) [
  | inl e ↦ (v, inl refl, e)
  | inr e ↦ let (w, i, o) = any-In p ws (ground arith) in (w, inr i, o)
]

-- In a calendar whose days are in order and short of 24 hours each by no more than a shift in all,
-- where the part of every window's length beyond whole days fits with its start into two days less
-- the shift, a schedule is active at a moment exactly where one of its windows covers it, having
-- opened at its start on some day it names.
pub active_iff :
    (s : Schedule) (shift : ℕ) (t : ℕ)
    → IsCalendar s.loc shift
    → All (Fits shift) s.windows
    → (active s t ≡ true) ↔ ((w : CompiledWindow) × In w s.windows × ((d : ℕ) × Covers s.loc w t d))
unfolding active
active_iff s shift t c f =
    let p = window_open s.loc t in
    let one = λ (w : CompiledWindow) (i : In w s.windows).
      window_open_iff s.loc shift c w (In-All (Fits shift) w s.windows f i) t in
    (
      (λ h. let (w, i, o) = any-In p s.windows h in (w, i, (one w i).0 o)),
      (λ (w, i, v). In-any p w s.windows i ((one w i).1 v)),
    )
