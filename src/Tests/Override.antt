-- ===== src/Tests/Override.antt =====
-- schedule_override.go: overrides.
use agentic_preview.Common.{
  ℕ, ◌+◌, ◌≡◌, ◌≢◌, refl, [], ◌∷◌, arith, ◌&&◌, none, some, ltb, leb, if◌then◌else◌, eq_text,
}
use agentic_preview.Common.Int.{pos, negsuc}
use agentic_preview.Common.Result.{ok, err}
use agentic_preview.Text.{codes, trim_space, to_lower}
use agentic_preview.Schedule.{Schedule}
use agentic_preview.Schedule.Active.{active}
use agentic_preview.Override.{
  OverrideState, Overrides, override_open, set_override, override_for, desired_open,
  negative_duration,
}
use agentic_preview.Override.Decision.{
  override_for-later, desired_open-set_override, desired_open-auto, desired_open-other,
}
use agentic_preview.Tests.Samples.{sql, sql_spec}

abbrev an_hour : OverrideState
an_hour = record {
  state = codes "open";
  since = 1_000;
  expires = 3_600_000_001_000;
  reason = codes "drill";
}

abbrev forced_open : Overrides
forced_open = (codes "sql", an_hour) ∷ []

opened :
    set_override
      (sql ∷ [])
      []
      (codes "sql")
      (codes " Open")
      (codes "drill ")
      (pos 3_600_000_000_000)
      1_000
    ≡ ok (forced_open, some an_hour)
unfolding set_override
opened = refl

cleared :
    set_override (sql ∷ []) forced_open (codes "sql") (codes "auto") [] (negsuc 0) 2_000
    ≡ ok ([], none)
unfolding set_override
cleared = refl

refused :
    set_override (sql ∷ []) [] (codes "sql") (codes "closed") [] (negsuc 0) 2_000
    ≡ err negative_duration
unfolding set_override
refused = refl

desired_open-set_override_example :
    (n : ℕ) × (pos 3_600_000_000_000 ≡ pos n)
    × ((desired_open forced_open sql 5_000).1 ≡ (
        if ltb 0 n && leb (1_000 + n) 5_000
        then active sql 5_000
        else eq_text (to_lower (trim_space (codes " Open"))) override_open))
desired_open-set_override_example =
    desired_open-set_override (sql ∷ []) [] (codes "sql") (codes " Open") (codes "drill ")
      (pos 3_600_000_000_000) 1_000 5_000 sql opened refl

desired_open-auto_example : (desired_open [] sql 5_000).1 ≡ active sql 5_000
desired_open-auto_example =
    desired_open-auto (sql ∷ []) forced_open (codes "sql") (codes "auto") [] (negsuc 0) 2_000 5_000
      sql cleared refl

abbrev other : Schedule
other = record sql { spec = record sql_spec { name = codes "cache" } }

cache-ne-sql : codes "cache" ≢ codes "sql"
cache-ne-sql h = ground arith

desired_open-other_example :
    (desired_open forced_open other 5_000).1 ≡ (desired_open [] other 5_000).1
desired_open-other_example =
    desired_open-other (sql ∷ []) [] (codes "sql") (codes " Open") (codes "drill ")
      (pos 3_600_000_000_000) 1_000 5_000 other opened cache-ne-sql

override_for-later_example :
    (override_for
      (override_for forced_open (codes "sql") 3_600_000_002_000).0
      (codes "sql")
      3_600_000_003_000).1
    ≡ (override_for forced_open (codes "sql") 3_600_000_003_000).1
override_for-later_example =
    override_for-later forced_open (codes "sql") (codes "sql") 3_600_000_002_000 3_600_000_003_000
      (omega arith)
