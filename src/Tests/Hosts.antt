-- ===== src/Tests/Hosts.antt =====
-- dns.go: the line edits on a ConfigMap key.
use Prim.Native.Nat.{max}
use agentic_preview.Common.{◌≡◌, ◌≢◌, ◌↔◌, ◌⊎◌, refl, true, false, [], some, none, arith}
use agentic_preview.Text.{Text, codes, is_space}
use agentic_preview.Hosts.{
  hosts_line, hosts_tag, find_tagged_line, apply_tagged_line, remove_tagged_line, lines_of,
  hosts_block_at,
}
use agentic_preview.Hosts.Entries.{
  IsDnsSchedule, find-apply_tagged_line, apply_tagged_line_unwritten_iff, find-other_schedule,
  remove-apply_tagged_line, remove_tagged_line-Cleared,
}
use agentic_preview.Hosts.Find.{count_tagged}
use agentic_preview.Hosts.Remove.{Cleared}
use agentic_preview.Tests.Samples.{sql}

abbrev block : Text
block = codes "hosts {\n  10.0.0.1 other.internal # by hand\n  fallthrough\n}\n"

applied : apply_tagged_line block (hosts_line sql) (hosts_tag (codes "sql")) ≡ (
  codes
      "hosts {\n  10.42.0.9 db.internal # agentic-preview:sql\n  10.0.0.1 other.internal # by hand\n  fallthrough\n}\n",
  true,
)
unfolding apply_tagged_line hosts_line
applied = refl

created :
    (apply_tagged_line [] (hosts_line sql) (hosts_tag (codes "sql"))).0
    ≡ codes "hosts {\n    10.42.0.9 db.internal # agentic-preview:sql\n    fallthrough\n}\n"
unfolding apply_tagged_line hosts_line
created = refl

replaced :
    (apply_tagged_line
      (codes "\t10.9.9.9 old # agentic-preview:sql \nx")
      (hosts_line sql)
      (hosts_tag (codes "sql"))).0
    ≡ codes "\t10.42.0.9 db.internal # agentic-preview:sql\nx"
unfolding apply_tagged_line hosts_line
replaced = refl

pub sql-IsDnsSchedule : IsDnsSchedule sql
unfolding is_space
sql-IsDnsSchedule = record {
  address_given = ground arith;
  address = ground arith;
  host = ground arith;
  named = ground arith;
  name = ground arith;
  unmarked = ground arith;
}

find-apply_tagged_line_example :
    (find_tagged_line
        (apply_tagged_line block (hosts_line sql) (hosts_tag (codes "sql"))).0
        (hosts_tag (codes "sql"))
      ≡ some (hosts_line sql))
    × (count_tagged
          (lines_of (apply_tagged_line block (hosts_line sql) (hosts_tag (codes "sql"))).0)
          (hosts_tag (codes "sql"))
        ≡ max 1 (count_tagged (lines_of block) (hosts_tag (codes "sql"))))
find-apply_tagged_line_example = find-apply_tagged_line sql sql-IsDnsSchedule block

apply_tagged_line_unwritten_iff_example :
    ((apply_tagged_line block (hosts_line sql) (hosts_tag (codes "sql")) ≡ (block, false))
      ↔ (find_tagged_line block (hosts_tag (codes "sql")) ≡ some (hosts_line sql)))
    × (((apply_tagged_line block (hosts_line sql) (hosts_tag (codes "sql"))).1 ≡ true)
        ↔ (find_tagged_line block (hosts_tag (codes "sql")) ≢ some (hosts_line sql)))
apply_tagged_line_unwritten_iff_example =
    apply_tagged_line_unwritten_iff sql sql-IsDnsSchedule block

find-other_schedule_example :
    (find_tagged_line
        (apply_tagged_line block (hosts_line sql) (hosts_tag (codes "sql"))).0
        (hosts_tag (codes "mail"))
      ≡ find_tagged_line block (hosts_tag (codes "mail")))
    × (find_tagged_line
          (remove_tagged_line block (hosts_tag (codes "sql"))).0
          (hosts_tag (codes "mail"))
        ≡ find_tagged_line block (hosts_tag (codes "mail")))
find-other_schedule_example =
    find-other_schedule sql sql-IsDnsSchedule block (codes "mail") (ground arith) (ground arith)

remove-apply_tagged_line_example :
    ((apply_tagged_line block (hosts_line sql) (hosts_tag (codes "sql"))).1 ≡ true)
    × (remove_tagged_line
          (apply_tagged_line block (hosts_line sql) (hosts_tag (codes "sql"))).0
          (hosts_tag (codes "sql"))
        ≡ (block, true))
unfolding find_tagged_line hosts_block_at hosts_tag
remove-apply_tagged_line_example = remove-apply_tagged_line sql sql-IsDnsSchedule block 0 refl refl

remove_tagged_line-Cleared_example :
    ((find_tagged_line block (hosts_tag (codes "sql")) ≡ none)
      × (remove_tagged_line block (hosts_tag (codes "sql")) ≡ (block, false)))
    ⊎ ((find_tagged_line block (hosts_tag (codes "sql")) ≢ none)
        × Cleared
            (hosts_tag (codes "sql"))
            block
            (remove_tagged_line block (hosts_tag (codes "sql"))))
remove_tagged_line-Cleared_example = remove_tagged_line-Cleared block (codes "sql")
