-- ===== src/Hosts/Remove.antt =====
-- `removeTaggedLine`: the first tagged line goes, and nothing else changes.
use agentic_preview.Common.{
  ℕ, ◌+◌, ◌≡◌, ◌≢◌, refl, ap, ◌∙◌, Bool, true, false, List, [], ◌∷◌, ◌++◌, none, some, arith, All,
  Bool-cases, inl, inr, take, drop, length, ◌⊎◌,
}
use agentic_preview.Text.{Text, split, join, trim_space}
use agentic_preview.Text.Affix.{take-append-drop}
use agentic_preview.Text.Split.{Without, split-join, join-split, split-All}
use agentic_preview.Hosts.{
  hosts_block_at, insert_tagged, insert_line, block_indent, is_tagged, find_tagged,
  find_tagged_line, lines_of, unlines, newline, remove_tagged, remove_tagged_line,
}
use agentic_preview.Hosts.Find.{
  count_tagged, find_tagged-append, IsEntry, is_tagged_short, count_tagged_zero_iff,
  count_tagged-append, block_indent-IsIndent, is_tagged-indent,
}
use agentic_preview.Hosts.Apply.Lines.{IsOther}
use agentic_preview.Hosts.Apply.Laws.{insert_line-ne-nil, insert_line-one_line}
use Prim.Native.Nat.{◌≤◌}

-- `ls` are `lns` without the first line that is tagged.
pub record Removed (tag : Text) (lns ls : List Text) : Type 0 where
  pub before : List Text
  pub line : Text
  pub after : List Text
  pub was : lns ≡ before ++ (line ∷ after)
  pub first : find_tagged before tag ≡ none
  pub tagged : is_tagged tag line ≡ true
  pub now : ls ≡ before ++ after

pub remove_tagged_lem :
    (lns : List Text) (tag : Text)
    → ((remove_tagged lns tag ≡ none) × (find_tagged lns tag ≡ none))
      ⊎ ((ls : List Text) × (remove_tagged lns tag ≡ some ls) × Removed tag lns ls)
unfolding remove_tagged find_tagged
remove_tagged_lem [] tag = inl (refl, refl)
remove_tagged_lem (ln ∷ lns) tag =
    let ih = remove_tagged_lem lns tag in
    elim (Bool-cases (is_tagged tag ln)) [
      | inl h ↦ rw h (
          inr (
            lns,
            refl,
            record {
              before = [];
              line = ln;
              after = lns;
              was = refl;
              first = refl;
              tagged = h;
              now = refl;
            },
          ))
      | inr h ↦ rw h (elim ih [
        | inl (a, b) ↦ inl (rw (a, remove_tagged), b)
        | inr (ls, e, r) ↦ inr (
          ln ∷ ls,
          rw (e, remove_tagged),
          record {
            before = ln ∷ r.before;
            line = r.line;
            after = r.after;
            was = ap (◌∷◌ ln) r.was;
            first = rw h r.first;
            tagged = r.tagged;
            now = ap (◌∷◌ ln) r.now;
          },
        )
      ])
    ]

empty_lines : (tag : Text) → 12 ≤ length tag → find_tagged (lines_of (unlines [])) tag ≡ none
empty_lines tag l =
    unfold find_tagged split in
    (unfold join in (rw (is_tagged_short [] tag (unfold trim_space in (omega arith))) refl))

-- Lines that are written out and read again show the same.
module _ (ls : List Text) (one_line : All (Without newline) ls) (tag : Text)
    (l : 12 ≤ length tag) where
  find_tagged-unlines : find_tagged (lines_of (unlines ls)) tag ≡ find_tagged ls tag
  find_tagged-unlines = go ls one_line
    where
      go :
          (ls : List Text)
          → All (Without newline) ls
          → find_tagged (lines_of (unlines ls)) tag ≡ find_tagged ls tag
      go [] h = empty_lines tag l ∙ unfold find_tagged in refl
      go (x ∷ xs) h = ap (λ k. find_tagged k tag) (split-join newline (x ∷ xs) (ground arith) h)

  count_tagged-unlines : count_tagged (lines_of (unlines ls)) tag ≡ count_tagged ls tag
  count_tagged-unlines = go ls one_line
    where
      go :
          (ls : List Text)
          → All (Without newline) ls
          → count_tagged (lines_of (unlines ls)) tag ≡ count_tagged ls tag
      go [] h = (count_tagged_zero_iff _ tag).0 (empty_lines tag l) ∙ unfold count_tagged in refl
      go (x ∷ xs) h = ap (λ k. count_tagged k tag) (split-join newline (x ∷ xs) (ground arith) h)

All-delete :
    (P : Text → Type 0) (a : List Text) (x : Text) (b : List Text)
    → All P (a ++ x ∷ b)
    → All P (a ++ b)
All-delete P [] x b h = h.1
All-delete P (y ∷ a) x b h = (h.0, All-delete P a x b h.1)

-- `r` is the content without its first tagged line, reported as a change.
pub record Cleared (tag content : Text) (r : Text × Bool) : Type 0 where
  pub kept : List Text
  pub lines : Removed tag (lines_of content) kept
  pub written : r.0 ≡ unlines kept
  pub changed : r.1 ≡ true
  pub count : count_tagged (lines_of r.0) tag + 1 ≡ count_tagged (lines_of content) tag

module _ (content tag : Text) (l : 12 ≤ length tag) (ls : List Text)
    (r : Removed tag (lines_of content) ls) where
  removed_one_line : All (Without newline) ls
  removed_one_line = rw r.now (
      All-delete (Without newline) r.before r.line r.after
        (rw r.was at (split-All newline content)))

  removed_count : count_tagged ls tag + 1 ≡ count_tagged (lines_of content) tag
  removed_count =
      rw (r.was, r.now)
        (omega (
          arith,
          count_tagged-append r.before r.after tag,
          count_tagged-append r.before (r.line ∷ r.after) tag,
          head,
        ))
    where
      head : count_tagged (r.line ∷ r.after) tag ≡ 1 + count_tagged r.after tag
      head = unfold count_tagged in (rw r.tagged refl)

  removed_others :
      (other : Text)
      → IsOther tag other
      → find_tagged ls other ≡ find_tagged (lines_of content) other
  removed_others other o =
      rw (r.was, r.now)
        (ground (
          arith,
          find_tagged-append r.before r.after other,
          find_tagged-append r.before (r.line ∷ r.after) other,
          head,
        ))
    where
      head : find_tagged (r.line ∷ r.after) other ≡ find_tagged r.after other
      head = unfold find_tagged in (rw (o.apart r.line r.tagged) refl)

  pub removed-Cleared : Cleared tag content (unlines ls, true)
  removed-Cleared = record {
    kept = ls;
    lines = r;
    written = refl;
    changed = refl;
    count = rw (count_tagged-unlines ls removed_one_line tag l) removed_count;
  }

  pub find_tagged-removed :
      (other : Text)
      → IsOther tag other
      → find_tagged (lines_of (unlines ls)) other ≡ find_tagged (lines_of content) other
  find_tagged-removed other o =
      find_tagged-unlines ls removed_one_line other o.long ∙ removed_others other o

-- The reader of another tag sees the same.
pub remove_tagged_line-others :
    (content tag other : Text)
    → 12 ≤ length tag
    → IsOther tag other
    → find_tagged_line (remove_tagged_line content tag).0 other ≡ find_tagged_line content other
unfolding find_tagged_line remove_tagged_line
remove_tagged_line-others content tag other l o = elim (remove_tagged_lem (lines_of content) tag) [
  | inl (e, f) ↦ rw (e, remove_tagged_line) refl
  | inr (ls, e, r) ↦ rw (e, remove_tagged_line) (find_tagged-removed content tag l ls r other o)
]

-- `removeTaggedLine` either finds nothing and changes nothing, or takes out the first tagged line.
pub remove_tagged_line_cases :
    (content tag : Text)
    → 12 ≤ length tag
    → ((find_tagged_line content tag ≡ none) × (remove_tagged_line content tag ≡ (content, false)))
      ⊎ ((find_tagged_line content tag ≢ none)
          × Cleared tag content (remove_tagged_line content tag))
unfolding find_tagged_line remove_tagged_line
remove_tagged_line_cases content tag l = elim (remove_tagged_lem (lines_of content) tag) [
  | inl (e, f) ↦ inl (f, rw (e, remove_tagged_line) refl)
  | inr (ls, e, r) ↦
      inr (
        (λ f. absurd (present r f)),
        rw (e, remove_tagged_line) (removed-Cleared content tag l ls r),
      )
]
  where
    present :
        {ls : List Text}
        → Removed tag (lines_of content) ls
        → find_tagged (lines_of content) tag ≡ none
        → ⊥
    present {ls} r f =
        let c = removed_count content tag l ls r in
        absurd (omega (arith, (count_tagged_zero_iff (lines_of content) tag).0 f))

remove_tagged-middle :
    (a : List Text) (x : Text) (b : List Text) (tag : Text)
    → find_tagged a tag ≡ none
    → is_tagged tag x ≡ true
    → remove_tagged (a ++ x ∷ b) tag ≡ some (a ++ b)
unfolding remove_tagged find_tagged
remove_tagged-middle [] x b tag h t = rw t refl
remove_tagged-middle (y ∷ a) x b tag h t = elim (Bool-cases (is_tagged tag y)) [
  | inl e ↦ absurd (ground arith)
  | inr e ↦ rw e (rw (remove_tagged-middle a x b tag (rw e at h) t) refl)
]

-- Taking out a line that was put into a block gives the content back.
pub remove-insert :
    (content want tag : Text) (i : ℕ)
    → IsEntry want tag
    → find_tagged_line content tag ≡ none
    → hosts_block_at (lines_of content) ≡ some i
    → remove_tagged_line (insert_tagged content want) tag ≡ (content, true)
unfolding find_tagged_line remove_tagged_line insert_tagged insert_line
remove-insert content want tag i entry h e =
    let lns = lines_of content in
    let ind = block_indent-IsIndent lns i in
    let front_none : find_tagged (take (i + 1) lns) tag ≡ none = ground (
      arith,
      find_tagged-append (take (i + 1) lns) (drop (i + 1) lns) tag,
      ap (λ k. find_tagged k tag) (take-append-drop (i + 1) lns),
    ) in
    rw
      (
        e,
        insert_tagged,
        split-join newline (insert_line lns i want) (insert_line-ne-nil want tag entry lns i)
            (insert_line-one_line want tag entry lns i (split-All newline content)),
        remove_tagged-middle (take (i + 1) lns) _ (drop (i + 1) lns) tag front_none
            (is_tagged-indent (block_indent lns i) want tag ind entry),
        remove_tagged_line,
      )
      (rw (take-append-drop (i + 1) lns, join-split newline content) refl)
