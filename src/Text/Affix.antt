-- ===== src/Text/Affix.antt =====
-- Laws of suffixes.
use agentic_preview.Common.{
  ℕ, zero, suc, ◌-◌, ◌≡◌, refl, true, List, [], ◌∷◌, ◌++◌, arith, length, length-append, drop,
  eq_text_refl, eq_text_iff, take, le→leb, &&_parts, sym, ◌∙◌, ap,
}
use agentic_preview.Text.{Text, has_suffix}

pub drop-append {ℓ} : {A : Type ℓ} (a b : List A) → drop (length a) (a ++ b) ≡ b
drop-append [] b = refl
drop-append (x ∷ a) b = drop-append a b

pub take-append-drop {ℓ} : {A : Type ℓ} (n : ℕ) (xs : List A) → take n xs ++ drop n xs ≡ xs
take-append-drop zero xs = refl
take-append-drop (suc n) [] = refl
take-append-drop (suc n) (x ∷ xs) = rw (take-append-drop n xs)

pub has_suffix-append : (a s : Text) → has_suffix (a ++ s) s ≡ true
unfolding has_suffix
has_suffix-append a s =
    let l : length (a ++ s) - length s ≡ length a = omega (arith, length-append a s) in
    rw (le→leb (length s) (length (a ++ s)) (omega (arith, length-append a s)), l, drop-append a s)
      (eq_text_refl s)

-- A text with a suffix is a front and the suffix.
pub front : Text → Text → Text
front s suffix = take (length s - length suffix) s

pub front-append : (s suffix : Text) → has_suffix s suffix ≡ true → front s suffix ++ suffix ≡ s
unfolding has_suffix front
front-append s suffix h =
    let e = (eq_text_iff (drop (length s - length suffix) s) suffix).0 (&&_parts _ _ h).1 in
    ap (◌++◌ (take (length s - length suffix) s)) (sym e)
    ∙ take-append-drop (length s - length suffix) s
