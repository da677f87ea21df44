-- ===== src/Schedule/Compile.antt =====
-- schedule.go: what a window compiles to.
use agentic_preview.Common.{
  text_key, ℕ, zero, suc, ◌+◌, ◌≤◌, ◌<◌, Bool, true, List, [], ◌∷◌, Option, none, some, ◌≡◌, ◌⊎◌,
  inl, inr, arith, refl, sym, ◌∙◌, length, ltb, ◌==◌, ◌||◌, ◌&&◌, leb,
}
use agentic_preview.Common.Assoc.{get}
use agentic_preview.Common.Sort.{contains}
use agentic_preview.Common.Int.{ℤ, pos, negsuc}
use agentic_preview.Common.Result.{ok, err, >>=-eq-ok, refuse-eq-ok, ok-inj, if-eq-ok}
use agentic_preview.Text.{Text, to_lower, trim_space, split}
use agentic_preview.Text.Numbers.{parse_duration}
use agentic_preview.Schedule.{Window, CompiledWindow}
use agentic_preview.Schedule.Clock.{
  day, parse_clock, until_end, window_length, compile_window, set_days, set_all_days, set_day,
  daily_words, weekday_words, weekend_words, day_names, unknown_day, no_day_set, not_a_clock,
  past_midnight, end_past_midnight, no_days, start_at_midnight, clock_total, clock_units, given,
  positive,
}

-- A clock time is at most 24:00.
pub parse_clock-le : (s : Text) {n : ℕ} → parse_clock s ≡ ok n → n ≤ day
unfolding parse_clock
parse_clock-le s h =
    let f = split b':' (trim_space s) in
    let (_, h1) = refuse-eq-ok (ltb (length f) 2 || ltb 3 (length f)) not_a_clock _ h in
    let (total, _, h2) = >>=-eq-ok (clock_total f clock_units 0) _ h1 in
    let (small, last) = refuse-eq-ok (ltb day total) past_midnight _ h2 in ground arith

-- The length that an end gives: positive, at most a day, and it runs to the clock time of the end.
abbrev pub RunsTo : ℕ → ℕ → ℕ → Type 0
RunsTo start end span =
    (0 < span) × (span ≤ day) × ((start + span ≡ end) ⊎ (start + span ≡ end + day))

until_end-RunsTo :
    (start : ℕ) (s : Text) {n : ℕ}
    → until_end start s ≡ ok n
    → start < day
    → (end : ℕ) × (parse_clock s ≡ ok end) × RunsTo start end n
unfolding until_end
until_end-RunsTo start s h l =
    let (end, e, h1) = >>=-eq-ok (parse_clock s) _ h in
    let (small, last) = refuse-eq-ok (ltb day end) end_past_midnight _ h1 in
    let early : end ≤ day = parse_clock-le s e in (end, e, ground arith)

positive-lt : (d : Option ℤ) {n : ℕ} → positive d ≡ ok n → (d ≡ some (pos n)) × (0 < n)
unfolding positive
positive-lt none h = absurd (ground arith)
positive-lt (some (negsuc k)) h = absurd (ground arith)
positive-lt (some (pos k)) h = ground arith

pub set_day-length : (days : List Bool) (i : ℕ) → length (set_day days i) ≡ length days
set_day-length [] i = refl
set_day-length (b ∷ bs) zero = refl
set_day-length (b ∷ bs) (suc i) = let ih = set_day-length bs i in omega arith

day_set-length :
    (into : List Bool) (o : Option ℕ) {days : List Bool}
    → elim o [ none ↦ err unknown_day | some d ↦ ok (set_day into d) ] ≡ ok days
    → length days ≡ length into
day_set-length into none h = cc
day_set-length into (some d) h = rw (sym (ok-inj h)) (set_day-length into d)

set_days-length :
    (into : List Bool) (name : Text) {days : List Bool}
    → set_days into name ≡ ok days
    → length into ≡ 7
    → length days ≡ 7
unfolding set_days
set_days-length into name h l =
    let n = to_lower (trim_space name) in
    elim (if-eq-ok (contains n daily_words) _ _ h) [
      | inl (_, e) ↦ rw (sym (ok-inj e)) refl
      | inr (_, h1) ↦ elim (if-eq-ok (contains n weekday_words) _ _ h1) [
        | inl (_, e) ↦ rw (sym (ok-inj e)) (
            set_day-length _ 5
            ∙ (set_day-length _ 4
                ∙ (set_day-length _ 3 ∙ (set_day-length _ 2 ∙ (set_day-length into 1 ∙ l)))))
        | inr (_, h2) ↦ elim (if-eq-ok (contains n weekend_words) _ _ h2) [
          | inl (_, e) ↦ rw (sym (ok-inj e)) (set_day-length _ 0 ∙ (set_day-length into 6 ∙ l))
          | inr (_, h3) ↦ day_set-length into (get n day_names) h3 ∙ l
        ]
      ]
    ]

set_all_days-length :
    (into : List Bool) (names : List Text) {days : List Bool}
    → set_all_days into names ≡ ok days
    → length into ≡ 7
    → length days ≡ 7
unfolding set_all_days
set_all_days-length into [] h l = rw (sym (ok-inj h)) l
set_all_days-length into (d ∷ ds) h l =
    let (next, e, h1) = >>=-eq-ok (set_days into d) _ h in
    set_all_days-length next ds h1 (set_days-length into d e l)

-- What makes a compiled window.
pub record IsCompiled (w : Window) (c : CompiledWindow) : Type 0 where
  pub starts : parse_clock w.start ≡ ok c.start
  pub before_midnight : c.start < day
  pub spans : window_length w c.start ≡ ok c.length
  pub week : length c.days ≡ 7

compile_window-IsCompiled :
    (w : Window) {c : CompiledWindow} → compile_window w ≡ ok c → IsCompiled w c
unfolding compile_window
compile_window-IsCompiled w h =
    let (_, h1) = refuse-eq-ok (length w.days == 0) no_days _ h in
    let (days, d, h2) = >>=-eq-ok (set_all_days no_day_set w.days) _ h1 in
    let (start, s, h3) = >>=-eq-ok (parse_clock w.start) _ h2 in
    let (early, h4) = refuse-eq-ok (leb day start) start_at_midnight _ h3 in
    let (span, n, h5) = >>=-eq-ok (window_length w start) _ h4 in
    rw (sym (ok-inj h5)) (record {
      starts = s;
      before_midnight = ground arith;
      spans = n;
      week = set_all_days-length no_day_set w.days d refl;
    })

-- A window with an end compiles, where it compiles, to one that opens at the clock
-- time of its start, before midnight, and closes at the clock time of its end, the same day or the
-- next, after a positive time of at most a day.
pub compile_window-RunsTo :
    (w : Window) {c : CompiledWindow}
    → compile_window w ≡ ok c
    → given w.end ≡ true
    → (parse_clock w.start ≡ ok c.start)
      × (c.start < day)
      × ((end : ℕ) × (parse_clock w.end ≡ ok end) × RunsTo c.start end c.length)
unfolding window_length
compile_window-RunsTo w {c} h g =
    let v = compile_window-IsCompiled w h in (v.starts, v.before_midnight, whole)
  where
    whole : (end : ℕ) × (parse_clock w.end ≡ ok end) × RunsTo c.start end c.length
    whole =
        let v = compile_window-IsCompiled w h in
        elim (if-eq-ok (given w.end && given w.duration) _ _ v.spans) [
          | inl (_, e) ↦ cc
          | inr (one, h1) ↦ elim (if-eq-ok (given w.duration) _ _ h1) [
            | inl (d, _) ↦ absurd (ground arith)
            | inr (_, h2) ↦ elim (if-eq-ok (given w.end) _ _ h2) [
              | inl (_, h3) ↦ until_end-RunsTo c.start w.end h3 v.before_midnight
              | inr (no_end, _) ↦ absurd (ground arith)
            ]
          ]
        ]

-- A window that compiles with a duration lasts for it, and it is positive.
pub compile_window-duration :
    (w : Window) {c : CompiledWindow}
    → compile_window w ≡ ok c
    → given w.duration ≡ true
    → (parse_duration (trim_space w.duration) ≡ some (pos c.length)) × (0 < c.length)
unfolding window_length
compile_window-duration w {c} h g =
    let v = compile_window-IsCompiled w h in
    elim (if-eq-ok (given w.end && given w.duration) _ _ v.spans) [
      | inl (_, e) ↦ cc
      | inr (_, h1) ↦ elim (if-eq-ok (given w.duration) _ _ h1) [
        | inl (_, h2) ↦ positive-lt (parse_duration (trim_space w.duration)) h2
        | inr (no_duration, _) ↦ absurd (ground arith)
      ]
    ]
