-- ===== src/Schedule/Active.antt =====
-- schedule.go: when a window is open, and when that next changes.
use agentic_preview.Common.{
  ℕ, zero, suc, ◌+◌, ◌-◌, ◌/◌, ◌%◌, Bool, true, false, not, ◌&&◌, ◌||◌, Option, none, some, ltb,
  leb, if◌then◌else◌, get_or, any,
}
use agentic_preview.Schedule.{CompiledWindow, Location, Schedule}
use agentic_preview.Schedule.Clock.{minute, day}

-- The day of the week, from Sunday on; the zero time is a Monday.
abbrev pub weekday : ℕ → ℕ
weekday d = (d + 1) % 7

-- Does the window that opens on this calendar day cover the moment? No window opens before the day
-- of the zero time.
unfoldable pub covers : Location → CompiledWindow → ℕ → ℕ → Bool
covers loc w t d =
    get_or w.days (weekday d) false
    && (leb (loc.midnight d + w.start) t && ltb t (loc.midnight d + w.start + w.length))

-- The loop over the days back from the moment's own.
unfoldable pub opened_within : Location → CompiledWindow → ℕ → ℕ → Bool
unfolding covers
opened_within loc w t zero = covers loc w t (loc.civil_day t)
opened_within loc w t (suc d) = opened_within loc w t d || covers loc w t (loc.civil_day t - suc d)

unfoldable pub window_open : Location → ℕ → CompiledWindow → Bool
unfolding opened_within
window_open loc t w = opened_within loc w t (w.length / day + 1)

-- `(*schedule).active`
unfoldable pub active : Schedule → ℕ → Bool
unfolding window_open any
active s t = any (window_open s.loc t) s.windows

abbrev pub same_bool : Bool → Bool → Bool
same_bool true b = b
same_bool false b = not b

-- The loop of `nextChange`, over the minutes that are left.
unfoldable pub find_change : Schedule → Bool → ℕ → ℕ → Option ℕ
unfolding active
find_change s now zero t = none
find_change s now (suc n) t =
    let rest = find_change s now n (t + minute) in
    if same_bool (active s (t + minute)) now then rest else some (t + minute)

abbrev pub fortnight : ℕ
fortnight = 20160

-- `(*schedule).nextChange`
unfoldable pub next_change : Schedule → ℕ → Option ℕ
unfolding find_change active
next_change s from = find_change s (active s from) fortnight (from - from % minute)
