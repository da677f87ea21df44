-- ===== src/Hosts.antt =====
-- dns.go, the text half: the one line that a DNS schedule owns in a `hosts` block.
pub mod Find
pub mod Apply
pub mod Remove
pub mod Tags
pub mod Entries
use agentic_preview.Common.{
  ℕ, suc, ◌+◌, ◌-◌, Bool, true, false, not, List, [], ◌∷◌, ◌++◌, Option, none, some, ltb,
  if◌then◌else◌, length, take, drop, eq_text, get_or, ◌||◌, ◌==◌,
}
use agentic_preview.Schedule.{Schedule}
use agentic_preview.Text.{
  Text, codes, trim_space, trim_left, trim_right, has_suffix, split, join, fields,
}

-- `hostsTag`
unfoldable pub hosts_tag : Text → Text
hosts_tag name = codes "# agentic-preview:" ++ name

-- `hostsLine`
unfoldable pub hosts_line : Schedule → Text
unfolding hosts_tag
hosts_line sc =
    sc.redirect_to ++ (codes " " ++ (sc.hostname ++ (codes " " ++ hosts_tag sc.spec.name)))

abbrev pub newline : ℕ
newline = b'\n'

abbrev pub lines_of : Text → List Text
lines_of = split newline

abbrev pub unlines : List Text → Text
unlines = join (newline ∷ [])

-- The test of every loop over the lines: does the tag end this one?
unfoldable pub is_tagged : Text → Text → Bool
unfolding trim_space has_suffix
is_tagged tag ln = has_suffix (trim_space ln) tag

unfoldable pub find_tagged : List Text → Text → Option Text
unfolding is_tagged
find_tagged [] tag = none
find_tagged (ln ∷ lns) tag = if is_tagged tag ln then some (trim_space ln) else find_tagged lns tag

-- `findTaggedLine`
unfoldable pub find_tagged_line : Text → Text → Option Text
unfolding find_tagged split
find_tagged_line content tag = find_tagged (lines_of content) tag

-- the blanks of `strings.TrimLeft(s, " \t")`
abbrev pub is_blank : ℕ → Bool
is_blank c = c == b' ' || c == b'\t'

-- `indentOf`
unfoldable pub indent_of : Text → Text
unfolding trim_left
indent_of s = take (length s - length (trim_left is_blank s)) s

-- What the first loop of `applyTaggedLine` comes to.
pub data Edit : Type 0 where
  absent unchanged : Edit
  edited : List Text → Edit

abbrev pub keep_line : Text → Edit → Edit
keep_line ln (edited lns) = edited (ln ∷ lns)
keep_line ln absent = absent
keep_line ln unchanged = unchanged

unfoldable pub replace_tagged : List Text → Text → Text → Edit
unfolding is_tagged indent_of eq_text
replace_tagged [] want tag = absent
replace_tagged (ln ∷ lns) want tag =
    if is_tagged tag ln
    then if eq_text (trim_space ln) want then unchanged else edited ((indent_of ln ++ want) ∷ lns)
    else keep_line ln (replace_tagged lns want tag)

abbrev opens_hosts : List Text → Bool
opens_hosts [] = false
opens_hosts (f ∷ fs) = eq_text f (codes "hosts")

-- The line opens a `hosts` block.
unfoldable pub is_hosts_open : Text → Bool
unfolding trim_space has_suffix fields eq_text
is_hosts_open ln =
    let t = trim_space ln in
    if not (has_suffix t (codes "{")) then false else opens_hosts (fields t)

abbrev pub next_index : Option ℕ → Option ℕ
next_index none = none
next_index (some i) = some (suc i)

-- `hostsBlockAt`
unfoldable pub hosts_block_at : List Text → Option ℕ
unfolding is_hosts_open
hosts_block_at [] = none
hosts_block_at (ln ∷ lns) = if is_hosts_open ln then some 0 else next_index (hosts_block_at lns)

-- the loop of `blockIndent`, over the lines behind the one that opens the block
unfoldable pub entry_indent : Text → List Text → Text
unfolding trim_space indent_of eq_text
entry_indent base [] = base ++ codes "    "
entry_indent base (ln ∷ lns) =
    if eq_text (trim_space ln) []
    then entry_indent base lns
    else if eq_text (trim_space ln) (codes "}")
    then base ++ codes "    "
    else if ltb (length base) (length (indent_of ln))
    then indent_of ln
    else base ++ codes "    "

-- `blockIndent`
unfoldable pub block_indent : List Text → ℕ → Text
unfolding entry_indent
block_indent lines open_at =
    entry_indent (indent_of (get_or lines open_at [])) (drop (open_at + 1) lines)

-- the block that is written where there is none
unfoldable pub hosts_block : Text → Text
hosts_block want = codes "hosts {\n    " ++ (want ++ codes "\n    fallthrough\n}\n")

unfoldable pub insert_line : List Text → ℕ → Text → List Text
unfolding block_indent
insert_line lines open_at want =
    take (open_at + 1) lines ++ ((block_indent lines open_at ++ want) ∷ drop (open_at + 1) lines)

unfoldable pub append_block : Text → Text → Text
unfolding hosts_block trim_space trim_right eq_text
append_block content want =
    if eq_text (trim_space content) []
    then hosts_block want
    else trim_right (λ c. c == newline) content ++ (codes "\n" ++ hosts_block want)

-- the part of `applyTaggedLine` behind its first loop
unfoldable pub insert_tagged : Text → Text → Text
unfolding hosts_block_at insert_line append_block split join
insert_tagged content want = elim (hosts_block_at (lines_of content)) [
  | some open_at ↦ unlines (insert_line (lines_of content) open_at want)
  | none ↦ append_block content want
]

-- `applyTaggedLine`
unfoldable pub apply_tagged_line : Text → Text → Text → Text × Bool
unfolding replace_tagged insert_tagged
apply_tagged_line content want tag = elim (replace_tagged (lines_of content) want tag) [
  | unchanged ↦ (content, false)
  | edited lns ↦ (unlines lns, true)
  | absent ↦ (insert_tagged content want, true)
]

-- the loop of `removeTaggedLine`: the lines without the first tagged one, if there is one
unfoldable pub remove_tagged : List Text → Text → Option (List Text)
unfolding is_tagged
remove_tagged [] tag = none
remove_tagged (ln ∷ lns) tag =
    if is_tagged tag ln
    then some lns
    else elim (remove_tagged lns tag) [ none ↦ none | some rest ↦ some (ln ∷ rest) ]

-- `removeTaggedLine`
unfoldable pub remove_tagged_line : Text → Text → Text × Bool
unfolding remove_tagged split join
remove_tagged_line content tag = elim (remove_tagged (lines_of content) tag) [
  | none ↦ (content, false)
  | some rest ↦ (unlines rest, true)
]
