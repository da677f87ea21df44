-- ===== src/Hosts/Find.antt =====
-- What `findTaggedLine` sees of lines that are put together, and the lines that the edits write.
use agentic_preview.Common.{
  ℕ, ◌+◌, ◌-◌, ◌≡◌, refl, ap, ◌∙◌, true, false, List, [], ◌∷◌, ◌++◌, none, some, arith, All,
  All-append, length, length-append, take, drop, Bool-cases, inl, inr, if◌then◌else◌, get_or, ltb,
  eq_text, ◌↔◌,
}
use agentic_preview.Text.{Text, codes, trim_space, has_suffix, is_space, trim_left}
use agentic_preview.Text.Trim.{trim-append, trim_left-split}
use agentic_preview.Text.Split.{Without}
use Prim.Native.Nat.{◌≤◌, ◌<◌}
use agentic_preview.Hosts.{
  is_tagged, find_tagged, is_blank, indent_of, entry_indent, block_indent, newline,
}

-- A line as the edits write it: trimmed, on one line, and with the tag at its end.
pub record IsEntry (want tag : Text) : Type 0 where
  pub trimmed : trim_space want ≡ want
  pub tagged : has_suffix want tag ≡ true
  pub one_line : Without newline want
  pub long : 12 ≤ length tag

abbrev pub IsIndent : Text → Type 0
IsIndent = All (λ c. is_blank c ≡ true)

blank-is_space : (c : ℕ) → is_blank c ≡ true → is_space c ≡ true
unfolding is_space
blank-is_space c h = ground arith

IsIndent-spaces : (a : Text) → IsIndent a → All (λ c. is_space c ≡ true) a
IsIndent-spaces [] h = tt
IsIndent-spaces (c ∷ a) h = (blank-is_space c h.0, IsIndent-spaces a h.1)

IsIndent-Without : (a w : Text) → IsIndent a → Without newline w → Without newline (a ++ w)
IsIndent-Without [] w h k = k
IsIndent-Without (c ∷ a) w h k = (ground arith, IsIndent-Without a w h.1 k)

take-front : (a b : Text) → take (length (a ++ b) - length b) (a ++ b) ≡ a
take-front a b =
    let e : length (a ++ b) - length b ≡ length a = omega (arith, length-append a b) in
    rw e (take_all a b)
  where
    take_all : (a b : Text) → take (length a) (a ++ b) ≡ a
    take_all [] b = refl
    take_all (c ∷ a) b = ap (◌∷◌ c) (take_all a b)

-- The indentation of a line is its leading blanks.
pub indent_of-IsIndent : (s : Text) → IsIndent (indent_of s)
unfolding indent_of
indent_of-IsIndent s =
    let (a, q, h) = trim_left-split is_blank s in
    let e : take (length s - length (trim_left is_blank s)) s ≡ a =
      ap (λ u. take (length u - length (trim_left is_blank s)) u) q
      ∙ take-front a (trim_left is_blank s) in
    rw e h

pub four_blanks-IsIndent : IsIndent (codes "    ")
four_blanks-IsIndent = (refl, (refl, (refl, (refl, tt))))

widened-IsIndent : (base : Text) → IsIndent base → IsIndent (base ++ codes "    ")
widened-IsIndent base h = All-append _ base _ h four_blanks-IsIndent

entry_indent-IsIndent :
    (base : Text) (lns : List Text) → IsIndent base → IsIndent (entry_indent base lns)
unfolding entry_indent
entry_indent-IsIndent base [] h = widened-IsIndent base h
entry_indent-IsIndent base (ln ∷ lns) h = elim (Bool-cases (eq_text (trim_space ln) [])) [
  | inl e ↦ rw e (entry_indent-IsIndent base lns h)
  | inr e ↦ rw e (elim (Bool-cases (eq_text (trim_space ln) (codes "}"))) [
    | inl f ↦ rw f (widened-IsIndent base h)
    | inr f ↦ rw f (elim (Bool-cases (ltb (length base) (length (indent_of ln)))) [
      | inl g ↦ rw g (indent_of-IsIndent ln)
      | inr g ↦ rw g (widened-IsIndent base h)
    ])
  ])
]

pub block_indent-IsIndent : (lns : List Text) (i : ℕ) → IsIndent (block_indent lns i)
unfolding block_indent
block_indent-IsIndent lns i =
    entry_indent-IsIndent _ (drop (i + 1) lns) (indent_of-IsIndent (get_or lns i []))

-- An entry reads the same however it is indented.
pub trim_space-indent :
    (a want tag : Text) → IsIndent a → IsEntry want tag → trim_space (a ++ want) ≡ want
unfolding trim_space
trim_space-indent a want tag h e =
    trim-append is_space a want (IsIndent-spaces a h) ∙ unfold trim_space in e.trimmed

pub is_tagged-indent :
    (a want tag : Text) → IsIndent a → IsEntry want tag → is_tagged tag (a ++ want) ≡ true
unfolding is_tagged
is_tagged-indent a want tag h e = rw (trim_space-indent a want tag h e) e.tagged

-- An indented entry is one line.
pub one_line-indent :
    (a want tag : Text) → IsIndent a → IsEntry want tag → Without newline (a ++ want)
one_line-indent a want tag h e = IsIndent-Without a want h e.one_line

pub find_tagged-append :
    (a b : List Text) (tag : Text)
    → find_tagged (a ++ b) tag
      ≡ elim (find_tagged a tag) [ none ↦ find_tagged b tag | some t ↦ some t ]
unfolding find_tagged
find_tagged-append [] b tag = refl
find_tagged-append (ln ∷ a) b tag = ground (arith, find_tagged-append a b tag)

-- How many lines are tagged.
unfoldable pub count_tagged : List Text → Text → ℕ
count_tagged [] tag = 0
count_tagged (ln ∷ lns) tag = (if is_tagged tag ln then 1 else 0) + count_tagged lns tag

pub count_tagged-append :
    (a b : List Text) (tag : Text)
    → count_tagged (a ++ b) tag ≡ count_tagged a tag + count_tagged b tag
unfolding count_tagged
count_tagged-append [] b tag = omega arith
count_tagged-append (ln ∷ a) b tag = omega (arith, count_tagged-append a b tag)

-- Nothing is found exactly where no line is tagged.
pub count_tagged_zero_iff :
    (lns : List Text) (tag : Text) → (find_tagged lns tag ≡ none) ↔ (count_tagged lns tag ≡ 0)
unfolding find_tagged count_tagged
count_tagged_zero_iff [] tag = ground arith
count_tagged_zero_iff (ln ∷ lns) tag = elim (Bool-cases (is_tagged tag ln)) [
  | inl e ↦ rw e ((λ h. cc), (λ h. absurd (omega arith)))
  | inr e ↦
      let ih = count_tagged_zero_iff lns tag in
      rw e ((λ h. omega (arith, ih.0 h)), (λ h. ih.1 (omega arith)))
]

-- A short line is no tagged one.
pub is_tagged_short :
    (ln tag : Text) → length (trim_space ln) < length tag → is_tagged tag ln ≡ false
unfolding is_tagged has_suffix
is_tagged_short ln tag h = ground arith
