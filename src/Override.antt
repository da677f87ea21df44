-- ===== src/Override.antt =====
-- schedule_override.go: forcing a schedule open or closed. The lock is left out: each operation is
-- one step. A zero expiry is the number 0.
pub mod Decision
use agentic_preview.Common.{
  ℕ, zero, suc, ◌+◌, Bool, true, false, not, ◌&&◌, ◌||◌, List, [], ◌∷◌, Option, none, some, ltb,
  ◌==◌, if◌then◌else◌, eq_text, text_key, is_some,
}
use agentic_preview.Common.Assoc.{Assoc, get, put, delete}
use agentic_preview.Common.Int.{ℤ, pos, negsuc}
use agentic_preview.Common.Result.{Result, ok, err}
use agentic_preview.Common.Sort.{contains}
use agentic_preview.Text.{Text, codes, trim_space, to_lower}
use agentic_preview.Schedule.{Schedule}
use agentic_preview.Schedule.Active.{active}

-- `overrideState`
pub record OverrideState : Type 0 where
  pub state : Text
  pub since : ℕ
  pub expires : ℕ
  pub reason : Text

abbrev pub Overrides : Type 0
Overrides = Assoc Text OverrideState

abbrev pub new_overrides : Overrides
new_overrides = []

-- Why an override is refused.
pub data OverrideError : Type 0 where
  no_schedule bad_state negative_duration : OverrideError

abbrev pub override_open : Text
override_open = codes "open"

abbrev pub override_closed : Text
override_closed = codes "closed"

abbrev pub auto_words : List Text
auto_words = codes "auto" ∷ codes "clear" ∷ codes "none" ∷ []

abbrev pub state_words : List Text
state_words = override_open ∷ override_closed ∷ []

-- `scheduleNamed`
unfoldable pub schedule_named : List Schedule → Text → Option Schedule
unfolding eq_text
schedule_named [] name = none
schedule_named (s ∷ ss) name = if eq_text s.spec.name name then some s else schedule_named ss name

-- `ClearOverride`
abbrev pub clear_override : Overrides → Text → Overrides × Bool
clear_override o name = (delete name o, is_some (get name o))

-- The instant at which an override of this duration lapses.
abbrev pub lapse : ℕ → ℕ → ℕ
lapse now d = if d == 0 then 0 else now + d

-- The part of `SetOverride` that records an override.
unfoldable pub force :
    Overrides → Text → Text → Text → ℕ → ℤ → Result OverrideError (Overrides × Option OverrideState)
unfolding put trim_space
force o name word reason now (negsuc n) = err negative_duration
force o name word reason now (pos n) =
    let ov : OverrideState = record {
      state = word;
      since = now;
      expires = lapse now n;
      reason = trim_space reason;
    } in
    ok (put name ov o, some ov)

-- The part of `SetOverride` that follows the search for the schedule.
unfoldable pub set_found :
    Overrides → Text → Text → Text → ℤ → ℕ → Result OverrideError (Overrides × Option OverrideState)
unfolding contains delete force to_lower trim_space
set_found o name state reason d now =
    let word = to_lower (trim_space state) in
    if contains word auto_words
    then ok ((clear_override o name).0, none)
    else if not (contains word state_words)
    then err bad_state
    else force o name word reason now d

-- `SetOverride`
unfoldable pub set_override :
    List Schedule
    → Overrides
    → Text
    → Text
    → Text
    → ℤ
    → ℕ
    → Result OverrideError (Overrides × Option OverrideState)
unfolding schedule_named set_found
set_override ss o name state reason d now = elim (schedule_named ss name) [
  | none ↦ err no_schedule
  | some sc ↦ set_found o name state reason d now
]

abbrev pub is_lapsed : ℕ → OverrideState → Bool
is_lapsed now ov = not (ov.expires == 0) && not (ltb now ov.expires)

unfoldable pub read_override :
    Overrides → Text → ℕ → Option OverrideState → Overrides × Option OverrideState
unfolding delete
read_override o name now none = (o, none)
read_override o name now (some ov) =
    if is_lapsed now ov then (delete name o, none) else (o, some ov)

-- `overrideFor`
unfoldable pub override_for : Overrides → Text → ℕ → Overrides × Option OverrideState
unfolding get read_override
override_for o name now = read_override o name now (get name o)

abbrev pub decide : Schedule → ℕ → Option OverrideState → Bool
decide sc now none = active sc now
decide sc now (some ov) = eq_text ov.state override_open

-- `desiredOpen`
unfoldable pub desired_open : Overrides → Schedule → ℕ → Overrides × Bool × Option OverrideState
unfolding override_for
desired_open o sc now =
    let (left, ov) = override_for o sc.spec.name now in (left, decide sc now ov, ov)
