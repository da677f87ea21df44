-- ===== src/Text/Split.antt =====
-- Laws of splitting and joining.
use agentic_preview.Common.{
  ℕ, ◌≡◌, ◌≢◌, refl, false, List, [], ◌∷◌, ◌++◌, arith, All, Bool-cases, inl, inr, ap, ◌∙◌, ◌==◌,
}
use agentic_preview.Text.{Text, cons_first, split, join}

-- No character of the text is the separator.
abbrev pub Without : ℕ → Text → Type 0
Without sep = All (λ c. (c == sep) ≡ false)

module _ (sep : ℕ) where
  cons_first-append :
      (c : ℕ) (ls ms : List Text) → ls ≢ [] → cons_first c (ls ++ ms) ≡ cons_first c ls ++ ms
  unfolding cons_first
  cons_first-append c [] ms h = absurd (h refl)
  cons_first-append c (l ∷ ls) ms h = refl

  cons_first-ne-nil : (c : ℕ) (ls : List Text) → cons_first c ls ≢ []
  unfolding cons_first
  cons_first-ne-nil c [] = ground arith
  cons_first-ne-nil c (l ∷ ls) = ground arith

  pub split-ne-nil : (s : Text) → split sep s ≢ []
  unfolding split
  split-ne-nil [] = ground arith
  split-ne-nil (c ∷ s) = ground (arith, cons_first-ne-nil c (split sep s))

  -- A separator splits a text into the lines before it and after it.
  pub split-append : (a b : Text) → split sep (a ++ sep ∷ b) ≡ split sep a ++ split sep b
  unfolding split
  split-append [] b = ground arith
  split-append (c ∷ a) b =
      ground
        (arith, split-append a b, cons_first-append c (split sep a) (split sep b) (split-ne-nil a))

  pub split-Without : (s : Text) → Without sep s → split sep s ≡ s ∷ []
  unfolding split cons_first
  split-Without [] h = refl
  split-Without (c ∷ s) h = rw h.0 (rw (split-Without s h.1))

  All-cons_first :
      (c : ℕ) (ls : List Text)
      → (c == sep) ≡ false
      → All (Without sep) ls
      → All (Without sep) (cons_first c ls)
  unfolding cons_first
  All-cons_first c [] h k = ((h, tt), tt)
  All-cons_first c (l ∷ ls) h k = ((h, k.0), k.1)

  pub split-All : (s : Text) → All (Without sep) (split sep s)
  unfolding split
  split-All [] = (tt, tt)
  split-All (c ∷ s) = elim (Bool-cases (c == sep)) [
    | inl e ↦ rw e (tt, split-All s)
    | inr e ↦ rw e (All-cons_first c (split sep s) e (split-All s))
  ]

  -- Splitting undoes joining, where no piece holds the separator.
  pub split-join :
      (ls : List Text) → ls ≢ [] → All (Without sep) ls → split sep (join (sep ∷ []) ls) ≡ ls
  unfolding join
  split-join [] h k = absurd (h refl)
  split-join (l ∷ []) h k = split-Without l k.0
  split-join (l ∷ m ∷ ls) h k =
      split-append l (join (sep ∷ []) (m ∷ ls))
      ∙ rw (split-Without l k.0) (ap (◌∷◌ l) (split-join (m ∷ ls) (ground arith) k.1))

  join-cons :
      (l : Text) (ls : List Text)
      → ls ≢ []
      → join (sep ∷ []) (l ∷ ls) ≡ l ++ (sep ∷ join (sep ∷ []) ls)
  unfolding join
  join-cons l [] h = absurd (h refl)
  join-cons l (m ∷ ls) h = refl

  join-cons_first :
      (c : ℕ) (ls : List Text)
      → ls ≢ []
      → join (sep ∷ []) (cons_first c ls) ≡ c ∷ join (sep ∷ []) ls
  unfolding join cons_first
  join-cons_first c [] h = absurd (h refl)
  join-cons_first c (l ∷ []) h = refl
  join-cons_first c (l ∷ m ∷ ls) h = refl

  -- Joining undoes splitting.
  pub join-split : (s : Text) → join (sep ∷ []) (split sep s) ≡ s
  unfolding split
  join-split [] = unfold join in refl
  join-split (c ∷ s) = ground (
    arith,
    join-split s,
    join-cons [] (split sep s) (split-ne-nil s),
    join-cons_first c (split sep s) (split-ne-nil s),
  )

  -- A property of all characters of a text is one of all characters of its lines.
  All-cons_first_of :
      (P : ℕ → Type 0) (c : ℕ) (ls : List Text)
      → P c
      → All (All P) ls
      → All (All P) (cons_first c ls)
  unfolding cons_first
  All-cons_first_of P c [] h k = ((h, tt), tt)
  All-cons_first_of P c (l ∷ ls) h k = ((h, k.0), k.1)

  pub split-All_of : (P : ℕ → Type 0) (s : Text) → All P s → All (All P) (split sep s)
  unfolding split
  split-All_of P [] h = (tt, tt)
  split-All_of P (c ∷ s) h = elim (Bool-cases (c == sep)) [
    | inl e ↦ rw e (tt, split-All_of P s h.1)
    | inr e ↦ rw e (All-cons_first_of P c (split sep s) h.0 (split-All_of P s h.1))
  ]
