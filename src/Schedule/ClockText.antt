-- ===== src/Schedule/ClockText.antt =====
-- schedule.go: a time of day is read back from the way `clock` writes it.
use agentic_preview.Common.{
  ℕ, zero, suc, ◌*◌, ◌/◌, ◌≤◌, ◌<◌, Bool, true, false, ◌&&◌, ◌≡◌, ◌⊎◌, inl, inr, arith, refl, sym,
  ◌==◌, ==_iff,
}
use agentic_preview.Common.Result.{Result, ok, err}
use agentic_preview.Schedule.Clock.{hour, minute, day, WindowError, parse_clock, clock}

abbrev reads_as : ℕ → Result WindowError ℕ → Bool
reads_as n (err e) = false
reads_as n (ok m) = m == n

unfoldable minute_read : ℕ → Bool
unfolding parse_clock clock
minute_read n = reads_as (n * minute) (parse_clock (clock (n * minute)))

-- Every whole minute below n is read back.
unfoldable minutes_read : ℕ → Bool
minutes_read zero = true
minutes_read (suc n) = minute_read n && minutes_read n

all_read : minutes_read 1441 ≡ true
unfolding minutes_read minute_read
all_read = refl

reads_as_eq : (n : ℕ) (r : Result WindowError ℕ) → reads_as n r ≡ true → r ≡ ok n
reads_as_eq n (err e) h = absurd (ground arith)
reads_as_eq n (ok m) h = let e : m ≡ n = (==_iff m n).0 h in rw e refl

minutes_read-at : (n m : ℕ) → minutes_read n ≡ true → m < n → minute_read m ≡ true
unfolding minutes_read
minutes_read-at zero m h l = absurd (omega arith)
minutes_read-at (suc n) m h l = elim (last m n l) [
  | inl b ↦ minutes_read-at n m (ground arith) b
  | inr e ↦ let here : minute_read n ≡ true = ground arith in rw e here
]
  where
    last : (m n : ℕ) → m < suc n → (m < n) ⊎ (m ≡ n)
    last m n l = omega arith

minute_read_eq : (n : ℕ) → minute_read n ≡ true → parse_clock (clock (n * minute)) ≡ ok (n * minute)
unfolding minute_read
minute_read_eq n h = reads_as_eq (n * minute) _ h

clock-minutes : (d : ℕ) → clock d ≡ clock (d / minute * minute)
unfolding clock
clock-minutes d =
    let h : d / hour ≡ d / minute * minute / hour = omega arith in
    let m : d / minute ≡ d / minute * minute / minute = omega arith in rw (sym h) (rw (sym m) refl)

-- Any time of day up to 24:00, written by `clock` and parsed, is the time less what it has beyond whole
-- minutes.
pub parse_clock-clock : (d : ℕ) → d ≤ day → parse_clock (clock d) ≡ ok (d / minute * minute)
parse_clock-clock d l =
    let n = d / minute in
    rw (clock-minutes d) (minute_read_eq n (minutes_read-at 1441 n all_read (omega arith)))
