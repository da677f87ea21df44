-- ===== src/Hosts/Tags.antt =====
-- The tags of two schedules never end the same line, so one schedule's edits are blind to the
-- lines of another.
use agentic_preview.Common.{
  ℕ, ◌≡◌, ◌≢◌, refl, sym, ap, ◌∙◌, true, false, [], ◌∷◌, ◌++◌, arith, Bool-cases, inl, inr,
}
use agentic_preview.Text.{Text, codes, has_suffix}
use agentic_preview.Text.Split.{Without}
use agentic_preview.Text.Affix.{front, front-append}
use agentic_preview.Hosts.{hosts_tag, is_tagged}

append-not-Without : (x : ℕ) (b v : Text) → Without x (b ++ x ∷ v) → ⊥
append-not-Without x [] v h = ground arith
append-not-Without x (c ∷ b) v h = append-not-Without x b v h.1

-- What stands behind the last `x` is determined by the text.
after_last : (x : ℕ) (a b u v : Text) → Without x u → Without x v → a ++ x ∷ u ≡ b ++ x ∷ v → u ≡ v
after_last x [] [] u v hu hv e = cc
after_last x [] (c ∷ b) u v hu hv e =
    let t : u ≡ b ++ x ∷ v = cc in absurd (append-not-Without x b v (rw t at hu))
after_last x (c ∷ a) [] u v hu hv e =
    let t : v ≡ a ++ x ∷ u = cc in absurd (append-not-Without x a u (rw t at hv))
after_last x (c ∷ a) (d ∷ b) u v hu hv e =
    let t : a ++ x ∷ u ≡ b ++ x ∷ v = cc in after_last x a b u v hu hv t

-- The mark by which a tag starts; no name of a schedule holds it.
abbrev pub mark : ℕ
mark = b'#'

tag_tail : Text → Text
tag_tail name = codes " agentic-preview:" ++ name

tag_tail-Without : (n : Text) → Without mark n → Without mark (tag_tail n)
unfolding tag_tail
tag_tail-Without n h = ground arith

tag_tail-injective : (n m : Text) → tag_tail n ≡ tag_tail m → n ≡ m
unfolding tag_tail
tag_tail-injective n m e = cc

hosts_tag-tag_tail : (n : Text) → hosts_tag n ≡ mark ∷ tag_tail n
unfolding hosts_tag tag_tail
hosts_tag-tag_tail n = refl

-- A text ends in the tag of one name at most.
pub has_suffix-hosts_tag :
    (s n m : Text)
    → Without mark n
    → Without mark m
    → has_suffix s (hosts_tag n) ≡ true
    → has_suffix s (hosts_tag m) ≡ true
    → n ≡ m
has_suffix-hosts_tag s n m hn hm p q = tag_tail-injective n m (
    after_last mark (front s (hosts_tag n)) (front s (hosts_tag m)) _ _ (tag_tail-Without n hn)
      (tag_tail-Without m hm) joined)
  where
    joined : front s (hosts_tag n) ++ mark ∷ tag_tail n ≡ front s (hosts_tag m) ++ mark ∷ tag_tail m
    joined =
        ap (◌++◌ (front s (hosts_tag n))) (sym (hosts_tag-tag_tail n))
        ∙ front-append s (hosts_tag n) p
        ∙ sym (front-append s (hosts_tag m) q)
        ∙ ap (◌++◌ (front s (hosts_tag m))) (hosts_tag-tag_tail m)

-- No line is tagged for two schedules.
pub is_tagged-hosts_tag :
    (ln n m : Text)
    → Without mark n
    → Without mark m
    → n ≢ m
    → is_tagged (hosts_tag n) ln ≡ true
    → is_tagged (hosts_tag m) ln ≡ false
unfolding is_tagged
is_tagged-hosts_tag ln n m hn hm ne p = elim (Bool-cases (is_tagged (hosts_tag m) ln)) [
  | inl q ↦ absurd (ne (has_suffix-hosts_tag _ n m hn hm p q))
  | inr q ↦ q
]
