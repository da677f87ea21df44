-- ===== src/Hosts/Apply/Block.antt =====
-- A `hosts` block behind the content, where there was none.
use Prim.Native.Nat.{◌≤◌}
use agentic_preview.Common.{
  ◌≡◌, refl, sym, ap, ◌∙◌, true, false, List, [], ◌∷◌, ◌++◌, none, some, arith, All, length,
  Bool-cases, inl, inr, eq_text, eq_text_iff, ==_iff, ◌==◌,
}
use mathlib.Core.List.{append-nil}
use agentic_preview.Text.{Text, codes, trim_space, is_space, split, trim_right}
use agentic_preview.Text.Split.{split-append, split-Without, split-All_of}
use agentic_preview.Text.Trim.{trim_right_split, trim_nil, trim-All}
use agentic_preview.Hosts.{is_tagged, find_tagged, newline, lines_of, hosts_block, append_block}
use agentic_preview.Hosts.Find.{
  IsEntry, trim_space-indent, is_tagged-indent, four_blanks-IsIndent, one_line-indent,
  find_tagged-append, count_tagged, count_tagged-append, count_tagged_zero_iff, is_tagged_short,
}
use agentic_preview.Hosts.Apply.Lines.{IsOther, Applied}

-- The fixed lines of a block are too short to be tagged.
scaffold_short :
    (tag : Text)
    → 12 ≤ length tag
    → (is_tagged tag (codes "hosts {") ≡ false)
      × (is_tagged tag (codes "    fallthrough") ≡ false)
      × (is_tagged tag (codes "}") ≡ false)
      × (is_tagged tag [] ≡ false)
unfolding trim_space
scaffold_short tag h = (
  is_tagged_short (codes "hosts {") tag (omega arith),
  is_tagged_short (codes "    fallthrough") tag (omega arith),
  is_tagged_short (codes "}") tag (omega arith),
  is_tagged_short [] tag (omega arith),
)

abbrev fixed_lines : List Text
fixed_lines = codes "    fallthrough" ∷ codes "}" ∷ [] ∷ []

module _ (want tag : Text) (entry : IsEntry want tag) where
  lines-hosts_block :
      lines_of (hosts_block want) ≡ codes "hosts {" ∷ (codes "    " ++ want) ∷ fixed_lines
  unfolding hosts_block
  lines-hosts_block =
      split-append newline (codes "hosts {") _
      ∙ ap (◌++◌ (split newline (codes "hosts {")))
          (split-append newline (codes "    " ++ want) (codes "    fallthrough\n}\n"))
      ∙ rw
          (split-Without newline (codes "    " ++ want)
            (one_line-indent (codes "    ") want tag four_blanks-IsIndent entry))
          (unfold split in refl)

  indented : is_tagged tag (codes "    " ++ want) ≡ true
  indented = is_tagged-indent (codes "    ") want tag four_blanks-IsIndent entry

  block_others :
      (other : Text) → IsOther tag other → find_tagged (lines_of (hosts_block want)) other ≡ none
  block_others other o =
      let s = scaffold_short other o.long in
      rw lines-hosts_block
        (unfold find_tagged in (rw (s.0, o.apart _ indented, s.1, s.2, s.3) refl))

  block_found : find_tagged (lines_of (hosts_block want)) tag ≡ some want
  block_found =
      let s = scaffold_short tag entry.long in
      rw lines-hosts_block (
        unfold find_tagged in
        (rw (s.0, indented)
          (ap some (trim_space-indent (codes "    ") want tag four_blanks-IsIndent entry))))

  block_count : count_tagged (lines_of (hosts_block want)) tag ≡ 1
  block_count =
      let s = scaffold_short tag entry.long in
      rw lines-hosts_block (unfold count_tagged in (rw (s.0, indented, s.1, s.2, s.3) refl))

-- Empty lines at the end hold nothing.
newlines_empty :
    (b tag : Text)
    → All (λ c. (c == newline) ≡ true) b
    → 12 ≤ length tag
    → find_tagged (lines_of b) tag ≡ none
newlines_empty [] tag h l = unfold find_tagged split in (rw (scaffold_short tag l).3 refl)
newlines_empty (c ∷ b) tag h l = step (newlines_empty b tag h.1 l)
  where
    step : find_tagged (lines_of b) tag ≡ none → find_tagged (lines_of (c ∷ b)) tag ≡ none
    step ih = unfold find_tagged split in (rw h.0 (rw (scaffold_short tag l).3 ih))

abbrev without_newlines : Text → Text
without_newlines = trim_right (λ c. c == newline)

split-without_newlines :
    (b r tag : Text)
    → All (λ c. (c == newline) ≡ true) b
    → 12 ≤ length tag
    → find_tagged (lines_of (r ++ b)) tag ≡ find_tagged (lines_of r) tag
split-without_newlines [] r tag h l = rw append-nil
split-without_newlines (c ∷ b) r tag h l =
    let e = (==_iff c newline).0 h.0 in
    rw (e, split-append newline r b)
      (ground (arith, find_tagged-append (lines_of r) (lines_of b) tag, newlines_empty b tag h.1 l))

find_tagged-without_newlines :
    (content tag : Text)
    → 12 ≤ length tag
    → find_tagged (lines_of (without_newlines content)) tag ≡ find_tagged (lines_of content) tag
find_tagged-without_newlines content tag l =
    let (b, q, h) = trim_right_split (λ c. c == newline) content in
    sym (
      ap (λ s. find_tagged (lines_of s) tag) q
      ∙ split-without_newlines b (without_newlines content) tag h l)

blank_lines :
    (lns : List Text) (tag : Text)
    → 12 ≤ length tag
    → All (All (λ c. is_space c ≡ true)) lns
    → find_tagged lns tag ≡ none
blank_lines [] tag l h = unfold find_tagged in refl
blank_lines (ln ∷ lns) tag l h = step (blank_lines lns tag l h.1)
  where
    blank : trim_space ln ≡ []
    blank = unfold trim_space in (trim-All is_space ln h.0)

    step : find_tagged lns tag ≡ none → find_tagged (ln ∷ lns) tag ≡ none
    step ih = unfold find_tagged in (rw (is_tagged_short ln tag (rw blank (omega arith))) ih)

-- A blank content holds nothing.
blank_content :
    (content tag : Text)
    → trim_space content ≡ []
    → 12 ≤ length tag
    → find_tagged (lines_of content) tag ≡ none
blank_content content tag e l =
    blank_lines (lines_of content) tag l
      (split-All_of newline _ content (trim_nil is_space content (unfold trim_space in e)))

module _ (want tag : Text) (entry : IsEntry want tag) where
  pub append_block-Applied :
      (content : Text)
      → find_tagged (lines_of content) tag ≡ none
      → Applied want tag (lines_of content) (lines_of (append_block content want))
  unfolding append_block
  append_block-Applied content h = elim (Bool-cases (eq_text (trim_space content) [])) [
    | inl e ↦ rw e record {
      found = block_found want tag entry;
      count =
          omega
            (arith, block_count want tag entry, (count_tagged_zero_iff (lines_of content) tag).0 h);
      others = λ other o.
          block_others want tag entry other o
          ∙ sym (blank_content content other ((eq_text_iff _ _).0 e) o.long);
    }
    | inr e ↦
        rw (e, split-append newline (without_newlines content) (hosts_block want))
          record {
            found = ground (
              arith,
              find_tagged-append (lines_of (without_newlines content)) (lines_of (hosts_block want))
                  tag,
              find_tagged-without_newlines content tag entry.long,
              block_found want tag entry,
            );
            count = omega (
              arith,
              count_tagged-append (lines_of (without_newlines content))
                  (lines_of (hosts_block want)) tag,
              (count_tagged_zero_iff (lines_of content) tag).0 h,
              (count_tagged_zero_iff (lines_of (without_newlines content)) tag).0
                  (find_tagged-without_newlines content tag entry.long ∙ h),
              block_count want tag entry,
            );
            others = λ other o. ground (
              arith,
              find_tagged-append (lines_of (without_newlines content)) (lines_of (hosts_block want))
                  other,
              find_tagged-without_newlines content other o.long,
              block_others want tag entry other o,
            );
          }
  ]
