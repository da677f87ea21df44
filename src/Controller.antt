-- ===== src/Controller.antt =====
-- schedule_controller.go: the controller's memory of a schedule. Log lines are left out.
pub mod Alarm
pub mod Window
pub mod Tick
use agentic_preview.Common.{
  ℕ, ◌-◌, Bool, false, not, ◌||◌, [], Option, none, some, ltb, leb, ◌==◌, if◌then◌else◌, eq_text,
  text_key,
}
use agentic_preview.Common.Assoc.{Assoc, get, put}
use agentic_preview.Text.{Text}
use agentic_preview.Schedule.{Schedule}
use agentic_preview.Schedule.Active.{same_bool, next_change}

-- `scheduleState`
pub record ScheduleState : Type 0 where
  pub opened : Bool
  pub up : Bool
  pub since : ℕ
  pub next_change : ℕ
  pub problem : Text
  pub raises : ℕ
  pub re_raises : ℕ
  pub recycle_problem : Text
  pub raised_at : ℕ
  pub last_alarm : ℕ
  pub applied : Bool
  pub swept : Bool

-- `&scheduleState{}`
abbrev pub fresh_state : ScheduleState
fresh_state = record {
  opened = false;
  up = false;
  since = 0;
  next_change = 0;
  problem = [];
  raises = 0;
  re_raises = 0;
  recycle_problem = [];
  raised_at = 0;
  last_alarm = 0;
  applied = false;
  swept = false;
}

abbrev pub alarm_interval : ℕ
alarm_interval = 300_000_000_000

-- `alarm`
unfoldable pub alarm : ScheduleState → ℕ → Text → ScheduleState
unfolding eq_text
alarm st now problem =
    if not (eq_text st.problem problem) || leb alarm_interval (now - st.last_alarm)
    then record st { problem = problem; last_alarm = now }
    else record st { problem = problem }

-- A schedule that has just become what it should be, or is looked at for the first time.
unfoldable pub turned : ScheduleState → Bool → ℕ → ScheduleState
turned st want now =
    if st.since == 0 || not (same_bool want st.opened)
    then record st { opened = want; since = now; next_change = 0 }
    else st

abbrev pub foreseen : ScheduleState → Option ℕ → ScheduleState
foreseen st none = st
foreseen st (some at) = record st { next_change = at }

-- What both kinds of schedule do first in a tick.
unfoldable pub begin_tick : Schedule → ScheduleState → Bool → ℕ → ScheduleState
unfolding turned next_change
begin_tick sc st want now =
    let st1 = turned st want now in
    if st1.next_change == 0 || not (ltb now st1.next_change)
    then foreseen st1 (next_change sc now)
    else st1

-- `scheduleStates`
abbrev pub ScheduleStates : Type 0
ScheduleStates = Assoc Text ScheduleState

abbrev pub new_schedule_states : ScheduleStates
new_schedule_states = []

abbrev pub or_fresh : Option ScheduleState → ScheduleState
or_fresh none = fresh_state
or_fresh (some st) = st

-- `scheduleStateFor`
unfoldable pub schedule_state_for : ScheduleStates → Text → ScheduleState
unfolding get
schedule_state_for states name = or_fresh (get name states)

-- `putScheduleState`
unfoldable pub put_schedule_state : ScheduleStates → Text → ScheduleState → ScheduleStates
unfolding put
put_schedule_state states name st = put name st states
