-- ===== src/Common/Sort.antt =====
-- `sort.Slice` and `sort.Strings`, by insertion, and lists without repetitions.
use Prim.Native.Nat.{ℕ}
use mathlib.Core.Path.{◌≡◌, refl}
use mathlib.Core.Logic.{◌⊎◌, ◌↔◌, inl, inr}
use mathlib.Core.Bool.{Bool, true, false, ◌||◌}
use mathlib.Core.List.{List, [], ◌∷◌}
use native.Mathlib.Omega.{arith}
use agentic_preview.Common.Tests.{ltb, ◌==◌, if◌then◌else◌, Bool-cases}
use agentic_preview.Common.Lists.{In}
use agentic_preview.Common.Keys.{eq_text, eq_text_iff}

module _ {A : Type 0} (less : A → A → Bool) where
  unfoldable pub insert_sorted : A → List A → List A
  insert_sorted x [] = x ∷ []
  insert_sorted x (y ∷ ys) = if less y x then y ∷ insert_sorted x ys else x ∷ y ∷ ys

  unfoldable pub sort : List A → List A
  unfolding insert_sorted
  sort [] = []
  sort (x ∷ xs) = insert_sorted x (sort xs)

  In-insert_sorted : (a x : A) (ys : List A) → In a (insert_sorted x ys) ↔ ((a ≡ x) ⊎ In a ys)
  unfolding insert_sorted
  In-insert_sorted a x [] = ((λ h. h), (λ h. h))
  In-insert_sorted a x (y ∷ ys) = elim (Bool-cases (less y x)) [
    | inl e ↦ rw e (later y ys (insert_sorted x ys) (In-insert_sorted a x ys))
    | inr e ↦ rw e ((λ h. h), (λ h. h))
  ]
    where
      later :
          (y : A) (ys zs : List A)
          → In a zs ↔ ((a ≡ x) ⊎ In a ys)
          → ((a ≡ y) ⊎ In a zs) ↔ ((a ≡ x) ⊎ (a ≡ y) ⊎ In a ys)
      later y ys zs e = (
        elim [ inl p ↦ inr (inl p) | inr i ↦ elim (e.0 i) [ inl p ↦ inl p | inr j ↦ inr (inr j) ] ],
        elim [
          | inl p ↦ inr (e.1 (inl p))
          | inr q ↦ elim q [ inl p ↦ inl p | inr j ↦ inr (e.1 (inr j)) ]
        ],
      )

  -- Sorting keeps the members.
  pub In-sort : (a : A) (xs : List A) → In a (sort xs) ↔ In a xs
  unfolding sort
  In-sort a [] = ((λ h. h), (λ h. h))
  In-sort a (x ∷ xs) =
      let ih = In-sort a xs in
      let e = In-insert_sorted a x (sort xs) in
      (
        (λ h. elim (e.0 h) [ inl p ↦ inl p | inr i ↦ inr (ih.0 i) ]),
        elim [ inl p ↦ e.1 (inl p) | inr i ↦ e.1 (inr (ih.1 i)) ],
      )

-- The order of texts.
unfoldable pub text_ltb : List ℕ → List ℕ → Bool
text_ltb [] [] = false
text_ltb [] (y ∷ ys) = true
text_ltb (x ∷ xs) [] = false
text_ltb (x ∷ xs) (y ∷ ys) =
    let rest = text_ltb xs ys in if ltb x y then true else if x == y then rest else false

unfoldable pub sort_texts : List (List ℕ) → List (List ℕ)
unfolding sort text_ltb
sort_texts = sort text_ltb

unfoldable pub contains : List ℕ → List (List ℕ) → Bool
unfolding eq_text
contains x [] = false
contains x (y ∷ ys) = eq_text x y || contains x ys

pub contains_iff : (x : List ℕ) (ys : List (List ℕ)) → (contains x ys ≡ true) ↔ In x ys
unfolding contains
contains_iff x [] = ground arith
contains_iff x (y ∷ ys) = elim (Bool-cases (eq_text x y)) [
  | inl e ↦ rw e ((λ _. inl ((eq_text_iff x y).0 e)), (λ _. refl))
  | inr e ↦ rw e (
    (λ h. inr ((contains_iff x ys).0 h)),
    elim [ inl p ↦ ground (arith, eq_text_iff x y) | inr i ↦ (contains_iff x ys).1 i ],
  )
]
