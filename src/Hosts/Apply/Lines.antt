-- ===== src/Hosts/Apply/Lines.antt =====
-- The three ways in which the lines change, by what a reader of the new lines sees.
use Prim.Native.Nat.{max, ◌≤◌}
use agentic_preview.Common.{
  ℕ, ◌+◌, ◌≡◌, ◌≢◌, refl, ap, true, false, List, [], ◌∷◌, ◌++◌, none, some, arith, All, length,
  take, drop, Bool-cases, inl, inr, eq_text, eq_text_iff,
}
use agentic_preview.Text.{Text, trim_space}
use agentic_preview.Text.Affix.{take-append-drop}
use agentic_preview.Text.Split.{Without}
use agentic_preview.Hosts.{
  is_tagged, find_tagged, indent_of, newline, Edit, absent, unchanged, edited, keep_line,
  replace_tagged, insert_line, block_indent,
}
use agentic_preview.Hosts.Find.{
  IsEntry, indent_of-IsIndent, block_indent-IsIndent, trim_space-indent, is_tagged-indent,
  one_line-indent, find_tagged-append, count_tagged, count_tagged-append, count_tagged_zero_iff,
}

-- A tag that ends no line that `tag` ends.
pub record IsOther (tag other : Text) : Type 0 where
  pub apart : (ln : Text) → is_tagged tag ln ≡ true → is_tagged other ln ≡ false
  pub long : 12 ≤ length other

-- `ls` are `lns` with the entry in place.
pub record Applied (want tag : Text) (lns ls : List Text) : Type 0 where
  pub found : find_tagged ls tag ≡ some want
  pub count : count_tagged ls tag ≡ max 1 (count_tagged lns tag)
  pub others : (other : Text) → IsOther tag other → find_tagged ls other ≡ find_tagged lns other

module _ (want tag : Text) (entry : IsEntry want tag) where
  -- What the first loop comes to, by its outcome.
  abbrev pub Replaced : List Text → Edit → Type 0
  Replaced lns absent = find_tagged lns tag ≡ none
  Replaced lns unchanged = find_tagged lns tag ≡ some want
  Replaced lns (edited ls) =
      Applied want tag lns ls
      × (ls ≢ [])
      × (All (Without newline) lns → All (Without newline) ls)
      × (find_tagged lns tag ≢ some want)

  keep_line-Replaced :
      (ln : Text) (lns : List Text) (e : Edit)
      → is_tagged tag ln ≡ false
      → Replaced lns e
      → Replaced (ln ∷ lns) (keep_line ln e)
  unfolding find_tagged count_tagged
  keep_line-Replaced ln lns absent h r = rw h r
  keep_line-Replaced ln lns unchanged h r = rw h r
  keep_line-Replaced ln lns (edited ls) h (a, n, w, d) = (
    record {
      found = rw h a.found;
      count = rw h (omega (arith, a.count));
      others = λ other o. ground (arith, a.others other o);
    },
    ground arith,
    (λ k. (k.0, w k.1)),
    rw h d,
  )

  edited-Replaced :
      (ln : Text) (lns : List Text)
      → is_tagged tag ln ≡ true
      → eq_text (trim_space ln) want ≡ false
      → Replaced (ln ∷ lns) (edited ((indent_of ln ++ want) ∷ lns))
  unfolding find_tagged count_tagged
  edited-Replaced ln lns h ne =
      let i = indent_of-IsIndent ln in
      let t = is_tagged-indent (indent_of ln) want tag i entry in
      (
        record {
          found = rw t (ap some (trim_space-indent (indent_of ln) want tag i entry));
          count = rw (t, h) (omega arith);
          others = λ other o. rw (o.apart _ t, o.apart ln h) refl;
        },
        ground arith,
        (λ k. (one_line-indent (indent_of ln) want tag i entry, k.1)),
        rw h (ground (arith, eq_text_iff (trim_space ln) want)),
      )

  pub replace_tagged-Replaced : (lns : List Text) → Replaced lns (replace_tagged lns want tag)
  unfolding replace_tagged
  replace_tagged-Replaced [] = unfold find_tagged in refl
  replace_tagged-Replaced (ln ∷ lns) =
      let ih = replace_tagged-Replaced lns in
      elim (Bool-cases (is_tagged tag ln)) [
        | inl h ↦ rw h (elim (Bool-cases (eq_text (trim_space ln) want)) [
          | inl e ↦ rw e (same ln lns h e)
          | inr e ↦ rw e (edited-Replaced ln lns h e)
        ])
        | inr h ↦ rw h (keep_line-Replaced ln lns (replace_tagged lns want tag) h ih)
      ]
    where
      same :
          (ln : Text) (lns : List Text)
          → is_tagged tag ln ≡ true
          → eq_text (trim_space ln) want ≡ true
          → find_tagged (ln ∷ lns) tag ≡ some want
      same ln lns h e = unfold find_tagged in (rw h (ap some ((eq_text_iff _ _).0 e)))

  find_tagged-parts :
      (a b : List Text)
      → find_tagged (a ++ b) tag ≡ none
      → (find_tagged a tag ≡ none) × (find_tagged b tag ≡ none)
  find_tagged-parts a b h = ground (arith, find_tagged-append a b tag)

  -- A line in the midst of lines that are not tagged.
  inserted-Applied :
      (a b : List Text) (ln : Text)
      → find_tagged (a ++ b) tag ≡ none
      → is_tagged tag ln ≡ true
      → trim_space ln ≡ want
      → Applied want tag (a ++ b) (a ++ (ln ∷ b))
  inserted-Applied a b ln h t e = record {
    found = ground (arith, find_tagged-append a (ln ∷ b) tag, find_tagged-parts a b h, head_found);
    count = omega (
      arith,
      count_tagged-append a (ln ∷ b) tag,
      count_tagged-append a b tag,
      (count_tagged_zero_iff (a ++ b) tag).0 h,
      head_count,
    );
    others = λ other o. ground (
      arith,
      find_tagged-append a (ln ∷ b) other,
      find_tagged-append a b other,
      head_other other o,
    );
  }
    where
      head_found : find_tagged (ln ∷ b) tag ≡ some want
      head_found = unfold find_tagged in (rw t (ap some e))

      head_count : count_tagged (ln ∷ b) tag ≡ 1 + count_tagged b tag
      head_count = unfold count_tagged in (rw t refl)

      head_other :
          (other : Text) → IsOther tag other → find_tagged (ln ∷ b) other ≡ find_tagged b other
      head_other other o = unfold find_tagged in (rw (o.apart ln t) refl)

  pub insert_line-Applied :
      (lns : List Text) (i : ℕ)
      → find_tagged lns tag ≡ none
      → Applied want tag lns (insert_line lns i want)
  unfolding insert_line
  insert_line-Applied lns i h =
      let split_at = take-append-drop (i + 1) lns in
      let ind = block_indent-IsIndent lns i in
      rw split_at at (
        inserted-Applied (take (i + 1) lns) (drop (i + 1) lns) _ (rw split_at h)
          (is_tagged-indent (block_indent lns i) want tag ind entry)
          (trim_space-indent (block_indent lns i) want tag ind entry))
