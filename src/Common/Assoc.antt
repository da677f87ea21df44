-- ===== src/Common/Assoc.antt =====
-- Go's maps as association lists. An iteration reads the entries in the order of the list, which
-- stands for one of the orders that Go may choose.
use mathlib.Core.Path.{◌≡◌, refl, sym}
use mathlib.Core.Logic.{◌≢◌, ◌⊎◌, inl, inr}
use mathlib.Core.Bool.{false}
use mathlib.Core.Option.{Option, none, some}
use mathlib.Core.List.{List, [], ◌∷◌}
use native.Mathlib.Omega.{arith}
use mathlib.Core.Logic.{◌⊎◌, inl, inr}
use agentic_preview.Common.Tests.{if◌then◌else◌, Bool-cases}
use agentic_preview.Common.Lists.{All}
use agentic_preview.Common.Keys.{KeyEq}

abbrev pub Assoc {ℓ κ} : Type ℓ → Type κ → Type (ℓ ⊔ κ)
Assoc K V = List (K × V)

module _ {ℓ κ} {K : Type ℓ} {V : Type κ} ⦃e : KeyEq K⦄ where
  unfoldable pub get : K → Assoc K V → Option V
  get k [] = none
  get k ((j, v) ∷ m) = if e.same j k then some v else get k m

  unfoldable pub put : K → V → Assoc K V → Assoc K V
  put k v [] = (k, v) ∷ []
  put k v ((j, w) ∷ m) = if e.same j k then (k, v) ∷ m else (j, w) ∷ put k v m

  unfoldable pub delete : K → Assoc K V → Assoc K V
  delete k [] = []
  delete k ((j, w) ∷ m) = if e.same j k then delete k m else (j, w) ∷ delete k m

  pub get-put :
      (k j : K) (v : V) (m : Assoc K V)
      → get j (put k v m) ≡ (if e.same k j then some v else get j m)
  unfolding get put
  get-put k j v [] = refl
  get-put k j v ((i, w) ∷ m) =
      ground (arith, e.same_iff k j, e.same_iff i k, e.same_iff i j, get-put k j v m)

  pub get-delete :
      (k j : K) (m : Assoc K V) → get j (delete k m) ≡ (if e.same k j then none else get j m)
  unfolding get delete
  get-delete k j [] = ground arith
  get-delete k j ((i, w) ∷ m) =
      ground (arith, e.same_iff k j, e.same_iff i k, e.same_iff i j, get-delete k j m)

  pub get-put_self : (k : K) (v : V) (m : Assoc K V) → get k (put k v m) ≡ some v
  get-put_self k v m = ground (arith, get-put k k v m, e.same_iff k k)

  pub get-delete_self : (k : K) (m : Assoc K V) → get k (delete k m) ≡ none
  get-delete_self k m = ground (arith, get-delete k k m, e.same_iff k k)

  -- No key stands twice.
  abbrev pub Distinct : Assoc K V → Type κ
  Distinct [] = Unit
  Distinct ((k, v) ∷ m) = (get k m ≡ none) × Distinct m

  pub put-Distinct : (k : K) (v : V) (m : Assoc K V) → Distinct m → Distinct (put k v m)
  unfolding put
  put-Distinct k v [] d = (get_nil, tt)
    where
      get_nil : get k [] ≡ none
      get_nil = unfold get in refl
  put-Distinct k v ((i, w) ∷ m) d =
      ground (arith, e.same_iff i k, e.same_iff k i, get-put k i v m, put-Distinct k v m d.1)

  pub delete-Distinct : (k : K) (m : Assoc K V) → Distinct m → Distinct (delete k m)
  unfolding delete
  delete-Distinct k [] d = tt
  delete-Distinct k ((i, w) ∷ m) d = ground (arith, get-delete k i m, delete-Distinct k m d.1)

module _ {K V : Type 0} ⦃e : KeyEq K⦄ where
  -- A key that is not there is the key of no entry.
  pub get-none : (k : K) (m : Assoc K V) → get k m ≡ none → All (λ x. x.0 ≢ k) m
  unfolding get
  get-none k [] h = tt
  get-none k ((j, v) ∷ m) h = elim (Bool-cases (e.same j k)) [
    | inl s ↦ absurd (ground arith)
    | inr s ↦ ((λ q. absurd (ground (arith, e.same_iff j k))), get-none k m (rw s at h))
  ]

  pub put-All :
      (P : K × V → Type 0) (k : K) (v : V) (m : Assoc K V) → P (k, v) → All P m → All P (put k v m)
  unfolding put
  put-All P k v [] p h = (p, tt)
  put-All P k v ((j, w) ∷ m) p h = elim (Bool-cases (e.same j k)) [
    | inl s ↦ rw s (p, h.1)
    | inr s ↦ rw s (h.0, put-All P k v m p h.1)
  ]

  pub delete-All : (P : K × V → Type 0) (k : K) (m : Assoc K V) → All P m → All P (delete k m)
  unfolding delete
  delete-All P k [] h = tt
  delete-All P k ((j, w) ∷ m) h = elim (Bool-cases (e.same j k)) [
    | inl s ↦ rw s (delete-All P k m h.1)
    | inr s ↦ rw s (h.0, delete-All P k m h.1)
  ]

  -- What is found has the properties of all entries.
  pub get-All :
      (P : K × V → Type 0) (k : K) (v : V) (m : Assoc K V) → All P m → get k m ≡ some v → P (k, v)
  unfolding get
  get-All P k v [] h g = absurd (ground arith)
  get-All P k v ((j, w) ∷ m) h g = elim (Bool-cases (e.same j k)) [
    | inl s ↦ rw (sym (some_eq (rw s at g)), sym ((e.same_iff j k).0 s)) h.0
    | inr s ↦ get-All P k v m h.1 (rw s at g)
  ]
    where
      some_eq : {a b : V} → some a ≡ some b → a ≡ b
      some_eq q = cc

-- A relation between the values of any two entries.
abbrev pub Pairs : {K V : Type 0} → (V → V → Type 0) → Assoc K V → Type 0
Pairs R [] = Unit
Pairs R ((k, v) ∷ m) = All (λ x. R v x.1) m × Pairs R m

module _ {K V : Type 0} ⦃e : KeyEq K⦄ (R : V → V → Type 0) where
  pub delete-Pairs : (k : K) (m : Assoc K V) → Pairs R m → Pairs R (delete k m)
  unfolding delete
  delete-Pairs k [] h = tt
  delete-Pairs k ((j, w) ∷ m) h = elim (Bool-cases (e.same j k)) [
    | inl s ↦ rw s (delete-Pairs k m h.1)
    | inr s ↦ rw s (delete-All (λ x. R w x.1) k m h.0, delete-Pairs k m h.1)
  ]

  -- The entries of other keys.
  others-All :
      (P : V → Type 0) (k : K) (m : Assoc K V)
      → All (λ x. (x.0 ≡ k) ⊎ P x.1) m
      → All (λ x. x.0 ≢ k) m
      → All (λ x. P x.1) m
  others-All P k [] h d = tt
  others-All P k (x ∷ m) h d =
      (elim h.0 [ inl q ↦ absurd (d.0 q) | inr q ↦ q ], others-All P k m h.1 d.1)

  -- A value that fits all others can take its key's place.
  pub put-Pairs :
      ((v w : V) → R v w → R w v)
      → (k : K) (v : V) (m : Assoc K V) → Distinct m
      → Pairs R m
      → All (λ x. (x.0 ≡ k) ⊎ R v x.1) m
      → Pairs R (put k v m)
  unfolding put
  put-Pairs flip k v [] d h f = (tt, tt)
  put-Pairs flip k v ((j, w) ∷ m) d h f = elim (Bool-cases (e.same j k)) [
    | inl s ↦ rw s (others-All (R v) k m f.1 (rw ((e.same_iff j k).0 s) at (get-none j m d.0)), h.1)
    | inr s ↦ rw s (
      put-All (λ x. R w x.1) k v m (flip v w (apart s f.0)) h.0,
      put-Pairs flip k v m d.1 h.1 f.1,
    )
  ]
    where
      apart : e.same j k ≡ false → (j ≡ k) ⊎ R v w → R v w
      apart s (inl q) = absurd (ground (arith, e.same_iff j k))
      apart s (inr r) = r
