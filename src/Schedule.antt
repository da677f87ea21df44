-- ===== src/Schedule.antt =====
-- schedule.go: the declared schedules and what they are compiled to. Times are nanoseconds from
-- Go's zero time, durations nanoseconds; a zero time is the number 0.
pub mod Clock
pub mod Active
pub mod Compile
pub mod ClockText
pub mod Opening
pub mod Change
use agentic_preview.Common.{ℕ, Bool, true, false, List, ◌++◌}
use agentic_preview.Common.Int.{ℤ}
use agentic_preview.Text.{Text, codes}

pub record RecycleTarget : Type 0 where
  pub namespace : Text
  pub selector : Text

pub record Window : Type 0 where
  pub days : List Text
  pub start : Text
  pub end : Text
  pub duration : Text

pub record ScheduleSpec : Type 0 where
  pub name : Text
  pub type : Text
  pub workload : Text
  pub namespace : Text
  pub port : Text
  pub service : Text
  pub target_service : Text
  pub target_namespace : Text
  pub target_port : ℤ
  pub location : Text
  pub hostname : Text
  pub redirect_to : Text
  pub recycle_pods : List RecycleTarget
  pub windows : List Window

pub data ScheduleKind : Type 0 where
  kind_intercept kind_dns : ScheduleKind

abbrev pub is_dns : ScheduleKind → Bool
is_dns kind_intercept = false
is_dns kind_dns = true

unfoldable pub kind_string : ScheduleKind → Text
kind_string kind_dns = codes "dns"
kind_string kind_intercept = codes "intercept"

-- `*time.Location`: the calendar day on which an instant falls, counted from the day of the zero
-- time, and the instant at which such a day begins.
pub record Location : Type 0 where
  pub civil_day : ℕ → ℕ
  pub midnight : ℕ → ℕ

-- `window`; `days` has the seven days from Sunday on.
pub record CompiledWindow : Type 0 where
  pub days : List Bool
  pub start : ℕ
  pub length : ℕ

-- `schedule`
pub record Schedule : Type 0 where
  pub spec : ScheduleSpec
  pub kind : ScheduleKind
  pub intercept_name : Text
  pub target_service : Text
  pub target_namespace : Text
  pub target_port : ℤ
  pub port_id : Text
  pub hostname : Text
  pub redirect_to : Text
  pub recycle : List RecycleTarget
  pub loc : Location
  pub windows : List CompiledWindow

-- `(*schedule).target`
unfoldable pub target : Schedule → Text
target s = s.target_service ++ (codes "." ++ s.target_namespace)
