-- ===== src/Tests/Schedule.antt =====
-- schedule.go: windows and clock times.
use agentic_preview.Common.{ℕ, ◌<◌, ◌≡◌, ◌↔◌, refl, In, [], ◌∷◌, arith, true, none, some}
use agentic_preview.Common.Int.{pos}
use agentic_preview.Common.Result.{ok, err}
use agentic_preview.Text.{codes, trim_space}
use agentic_preview.Text.Numbers.{parse_duration}
use agentic_preview.Schedule.{Window, CompiledWindow, Schedule}
use agentic_preview.Schedule.Clock.{day, parse_clock, clock, compile_window, end_and_duration}
use agentic_preview.Schedule.Compile.{compile_window-RunsTo, compile_window-duration, RunsTo}
use agentic_preview.Schedule.ClockText.{parse_clock-clock}
use agentic_preview.Schedule.Active.{active, next_change, fortnight}
use agentic_preview.Schedule.Opening.{IsCalendar, Covers, active_iff}
use agentic_preview.Schedule.Change.{Unchanged, FirstChange, next_change-some, next_change-none}
use agentic_preview.Tests.Samples.{utc, overnight, sql}

abbrev pub friday_night : Window
friday_night = record {
  days = codes " Fri" ∷ [];
  start = codes "18:32";
  end = codes "07:21";
  duration = [];
}

friday_night-overnight : compile_window friday_night ≡ ok overnight
unfolding compile_window
friday_night-overnight = refl

abbrev long_night : Window
long_night = record friday_night { end = []; duration = codes "12h49m" }

long_night-overnight : compile_window long_night ≡ ok overnight
unfolding compile_window
long_night-overnight = refl

both_given : compile_window (record friday_night { duration = codes "1h" }) ≡ err end_and_duration
unfolding compile_window
both_given = refl

compile_window-RunsTo_example :
    (parse_clock (codes "18:32") ≡ ok overnight.start)
    × (overnight.start < day)
    × ((end : ℕ) × (parse_clock (codes "07:21") ≡ ok end)
        × RunsTo overnight.start end overnight.length)
unfolding compile_window
compile_window-RunsTo_example = compile_window-RunsTo friday_night friday_night-overnight refl

compile_window-duration_example :
    (parse_duration (trim_space (codes "12h49m")) ≡ some (pos overnight.length))
    × (0 < overnight.length)
unfolding compile_window
compile_window-duration_example = compile_window-duration long_night long_night-overnight refl

parse_clock-clock_example : parse_clock (clock 66_725_000_000_000) ≡ ok 66_720_000_000_000
parse_clock-clock_example = parse_clock-clock 66_725_000_000_000 (omega arith)

utc-IsCalendar : IsCalendar utc 0
utc-IsCalendar = record {
  begun = λ t. omega arith;
  not_ended = λ t. omega arith;
  in_order = λ d e l. omega arith;
  lasting = λ d n. omega arith;
}

-- At 19:00 on the first Friday.
active_iff_example :
    (active sql 414_000_000_000_000 ≡ true)
    ↔ ((w : CompiledWindow) × In w sql.windows × ((d : ℕ) × Covers sql.loc w 414_000_000_000_000 d))
active_iff_example = active_iff sql 0 414_000_000_000_000 utc-IsCalendar (omega arith, tt)

-- A minute before the window opens.
abbrev almost : ℕ
almost = 412_260_000_000_000

opens_soon : next_change sql almost ≡ some 412_320_000_000_000
unfolding next_change
opens_soon = refl

next_change-some_example :
    (k : ℕ) × (k < fortnight) × FirstChange sql (active sql almost) almost k 412_320_000_000_000
next_change-some_example = next_change-some sql almost 412_320_000_000_000 opens_soon

abbrev shut : Schedule
shut = record sql { windows = [] }

never_opens : next_change shut almost ≡ none
unfolding next_change
never_opens = refl

next_change-none_example : Unchanged shut (active shut almost) almost fortnight
next_change-none_example = next_change-none shut almost never_opens
