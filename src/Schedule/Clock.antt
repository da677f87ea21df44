-- ===== src/Schedule/Clock.antt =====
-- schedule.go: clock times and the days of a window.
use agentic_preview.Common.{
  ℕ, zero, suc, ◌+◌, ◌-◌, ◌*◌, ◌/◌, ◌%◌, Bool, true, false, not, ◌&&◌, ◌||◌, List, [], ◌∷◌, ◌++◌,
  Option, none, some, ltb, leb, ◌==◌, if◌then◌else◌, length, eq_text, text_key,
}
use agentic_preview.Common.Assoc.{Assoc, get}
use agentic_preview.Common.Int.{ℤ, pos, negsuc}
use agentic_preview.Common.Result.{Result, ok, err, ◌>>=◌, ◌>>◌, refuse}
use agentic_preview.Common.Sort.{contains}
use agentic_preview.Text.{Text, codes, trim_space, split, to_lower}
use agentic_preview.Text.Numbers.{atoi, parse_duration}
use agentic_preview.Schedule.{Window, CompiledWindow}

abbrev pub second : ℕ
second = 1_000_000_000

abbrev pub minute : ℕ
minute = 60_000_000_000

abbrev pub hour : ℕ
hour = 3_600_000_000_000

abbrev pub day : ℕ
day = 86_400_000_000_000

-- Why a window does not compile.
pub data WindowError : Type 0 where
  no_days unknown_day : WindowError
  not_a_clock clock_out_of_range past_midnight : WindowError
  start_at_midnight end_and_duration bad_duration duration_not_positive : WindowError
  end_past_midnight no_end : WindowError

-- `units` and `limits` of `parseClock`
abbrev pub clock_units : List (ℕ × ℕ)
clock_units = (hour, 24) ∷ (minute, 59) ∷ (second, 59) ∷ []

in_limit : ℕ → Option ℤ → Result WindowError ℕ
in_limit limit none = err not_a_clock
in_limit limit (some (negsuc n)) = err clock_out_of_range
in_limit limit (some (pos n)) = if ltb limit n then err clock_out_of_range else ok n

-- the loop of `parseClock`
unfoldable pub clock_total : List Text → List (ℕ × ℕ) → ℕ → Result WindowError ℕ
unfolding atoi in_limit
clock_total [] units total = ok total
clock_total (part ∷ parts) [] total = ok total
clock_total (part ∷ parts) ((unit, limit) ∷ units) total = do
  n ← in_limit limit (atoi part)
  clock_total parts units (total + n * unit)

-- `parseClock`
unfoldable pub parse_clock : Text → Result WindowError ℕ
unfolding split trim_space clock_total
parse_clock s = do
  let f = split b':' (trim_space s)
  refuse (ltb (length f) 2 || ltb 3 (length f)) not_a_clock
  total ← clock_total f clock_units 0
  refuse (ltb day total) past_midnight
  ok total

two_digits : ℕ → Text
two_digits n = (b'0' + n / 10) ∷ (b'0' + n % 10) ∷ []

-- `clock`, for a time of day; `%02d` of a number below 100
unfoldable pub clock : ℕ → Text
unfolding two_digits
clock d = two_digits (d / hour) ++ (b':' ∷ two_digits (d / minute % 60))

-- `dayNames`
abbrev pub day_names : Assoc Text ℕ
day_names =
    (codes "sun", 0)
    ∷ (codes "sunday", 0)
    ∷ (codes "mon", 1)
    ∷ (codes "monday", 1)
    ∷ (codes "tue", 2)
    ∷ (codes "tues", 2)
    ∷ (codes "tuesday", 2)
    ∷ (codes "wed", 3)
    ∷ (codes "weds", 3)
    ∷ (codes "wednesday", 3)
    ∷ (codes "thu", 4)
    ∷ (codes "thur", 4)
    ∷ (codes "thurs", 4)
    ∷ (codes "thursday", 4)
    ∷ (codes "fri", 5)
    ∷ (codes "friday", 5)
    ∷ (codes "sat", 6)
    ∷ (codes "saturday", 6)
    ∷ []

abbrev pub set_day : List Bool → ℕ → List Bool
set_day [] i = []
set_day (b ∷ bs) zero = true ∷ bs
set_day (b ∷ bs) (suc i) = b ∷ set_day bs i

abbrev pub no_day_set : List Bool
no_day_set = false ∷ false ∷ false ∷ false ∷ false ∷ false ∷ false ∷ []

abbrev pub every_day : List Bool
every_day = true ∷ true ∷ true ∷ true ∷ true ∷ true ∷ true ∷ []

abbrev pub daily_words : List Text
daily_words = codes "daily" ∷ codes "every-day" ∷ codes "everyday" ∷ codes "all" ∷ []

abbrev pub weekday_words : List Text
weekday_words = codes "weekdays" ∷ codes "weekday" ∷ []

abbrev pub weekend_words : List Text
weekend_words = codes "weekends" ∷ codes "weekend" ∷ []

-- `setDays`
unfoldable pub set_days : List Bool → Text → Result WindowError (List Bool)
unfolding to_lower trim_space contains get
set_days into name =
    let n = to_lower (trim_space name) in
    if contains n daily_words
    then ok every_day
    else if contains n weekday_words
    then ok (set_day (set_day (set_day (set_day (set_day into 1) 2) 3) 4) 5)
    else if contains n weekend_words
    then ok (set_day (set_day into 6) 0)
    else elim (get n day_names) [ none ↦ err unknown_day | some d ↦ ok (set_day into d) ]

unfoldable pub set_all_days : List Bool → List Text → Result WindowError (List Bool)
unfolding set_days
set_all_days into [] = ok into
set_all_days into (d ∷ ds) = do next ← set_days into d; set_all_days next ds

abbrev pub given : Text → Bool
given s = not (eq_text (trim_space s) [])

unfoldable pub positive : Option ℤ → Result WindowError ℕ
positive none = err bad_duration
positive (some (negsuc n)) = err duration_not_positive
positive (some (pos n)) = if n == 0 then err duration_not_positive else ok n

-- the case of `compileWindow` with an end
unfoldable pub until_end : ℕ → Text → Result WindowError ℕ
unfolding parse_clock
until_end start s = do
  end ← parse_clock s
  refuse (ltb day end) end_past_midnight
  ok ((if leb end start then end + day else end) - start)

-- the switch of `compileWindow`
unfoldable pub window_length : Window → ℕ → Result WindowError ℕ
unfolding trim_space eq_text until_end positive parse_duration
window_length w start =
    if given w.end && given w.duration
    then err end_and_duration
    else if given w.duration
    then positive (parse_duration (trim_space w.duration))
    else if given w.end
    then until_end start w.end
    else err no_end

-- `compileWindow`
unfoldable pub compile_window : Window → Result WindowError CompiledWindow
unfolding set_all_days parse_clock window_length
compile_window w = do
  refuse (length w.days == 0) no_days
  days ← set_all_days no_day_set w.days
  start ← parse_clock w.start
  refuse (leb day start) start_at_midnight
  span ← window_length w start
  ok (record { days = days; start = start; length = span })
