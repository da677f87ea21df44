-- ===== src/Text/Trim.antt =====
-- Laws of trimming.
use agentic_preview.Common.{
  ℕ, ◌≡◌, refl, Bool, true, false, [], ◌∷◌, ◌++◌, arith, All, All-append, Bool-cases, inl, inr, ap,
  ◌∙◌,
}
use agentic_preview.Text.{Text, trim_left, trim_right, cons_trimmed, trim}

module _ (p : ℕ → Bool) where
  pub trim_left-append :
      (a s : Text) → All (λ c. p c ≡ true) a → trim_left p (a ++ s) ≡ trim_left p s
  unfolding trim_left
  trim_left-append [] s h = refl
  trim_left-append (c ∷ a) s h = rw h.0 (trim_left-append a s h.1)

  -- What is trimmed off in front of a text makes no difference to the trimmed text.
  pub trim-append : (a s : Text) → All (λ c. p c ≡ true) a → trim p (a ++ s) ≡ trim p s
  unfolding trim
  trim-append a s h = ap (trim_right p) (trim_left-append a s h)

  cons_trimmed_idem :
      (c : ℕ) (s : Text)
      → trim_right p s ≡ s
      → trim_right p (cons_trimmed p c s) ≡ cons_trimmed p c s
  unfolding trim_right cons_trimmed
  cons_trimmed_idem c [] h = ground arith
  cons_trimmed_idem c (d ∷ s) h = rw h refl

  pub trim_right_idem : (s : Text) → trim_right p (trim_right p s) ≡ trim_right p s
  unfolding trim_right
  trim_right_idem [] = refl
  trim_right_idem (c ∷ s) = cons_trimmed_idem c (trim_right p s) (trim_right_idem s)

  -- A text that does not start with a character of `p` keeps its start when trimmed on the right.
  trim_left-cons_trimmed :
      (c : ℕ) (s : Text) → p c ≡ false → trim_left p (cons_trimmed p c s) ≡ cons_trimmed p c s
  unfolding trim_left cons_trimmed
  trim_left-cons_trimmed c [] h = ground arith
  trim_left-cons_trimmed c (d ∷ s) h = ground arith

  pub trim_left-cons : (c : ℕ) (s : Text) → p c ≡ false → trim_left p (c ∷ s) ≡ c ∷ s
  unfolding trim_left
  trim_left-cons c s h = rw h

  trim_left_skip : (c : ℕ) (s : Text) → p c ≡ true → trim_left p (c ∷ s) ≡ trim_left p s
  unfolding trim_left
  trim_left_skip c s h = rw h

  trim_left-trim_right :
      (s : Text) → trim_left p (trim_right p (trim_left p s)) ≡ trim_right p (trim_left p s)
  trim_left-trim_right [] = unfold trim_right trim_left in refl
  trim_left-trim_right (c ∷ s) = elim (Bool-cases (p c)) [
    | inl e ↦ rw (trim_left_skip c s e) (trim_left-trim_right s)
    | inr e ↦
        rw (trim_left-cons c s e) (unfold trim_right in trim_left-cons_trimmed c (trim_right p s) e)
  ]

  -- Trimming a trimmed text changes nothing.
  pub trim_idem : (s : Text) → trim p (trim p s) ≡ trim p s
  unfolding trim
  trim_idem s = rw (trim_left-trim_right s) (trim_right_idem (trim_left p s))

  -- A text that ends in what stays is kept up to its end.
  pub trim_right-append :
      (a b : Text) (c : ℕ) (r : Text)
      → trim_right p b ≡ c ∷ r
      → trim_right p (a ++ b) ≡ a ++ (c ∷ r)
  unfolding trim_right cons_trimmed
  trim_right-append [] b c r h = h
  trim_right-append (d ∷ []) b c r h = rw h refl
  trim_right-append (d ∷ e ∷ a) b c r h = rw (trim_right-append (e ∷ a) b c r h) refl

  pub trim_right-All : (s : Text) → All (λ c. p c ≡ false) s → trim_right p s ≡ s
  unfolding trim_right cons_trimmed
  trim_right-All [] h = refl
  trim_right-All (c ∷ []) h = rw h.0 refl
  trim_right-All (c ∷ d ∷ s) h = rw (trim_right-All (d ∷ s) h.1) refl

  -- What is trimmed off on the left, and the rest.
  pub trim_left-split : (s : Text) → (a : Text) × (s ≡ a ++ trim_left p s) × All (λ c. p c ≡ true) a
  unfolding trim_left
  trim_left-split [] = ([], refl, tt)
  trim_left-split (c ∷ s) = elim (Bool-cases (p c)) [
    | inl e ↦ let (a, q, h) = trim_left-split s in (c ∷ a, rw e (ap (◌∷◌ c) q), (e, h))
    | inr e ↦ ([], rw e refl, tt)
  ]

  cons_split :
      (c : ℕ) (s r : Text)
      → trim_right p s ≡ r
      → (b : Text) → s ≡ r ++ b
      → All (λ c. p c ≡ true) b
      → (b : Text) × (c ∷ s ≡ trim_right p (c ∷ s) ++ b) × All (λ c. p c ≡ true) b
  unfolding trim_right cons_trimmed
  cons_split c s [] e b q h = elim (Bool-cases (p c)) [
    | inl f ↦ (c ∷ b, rw e (rw f (ap (◌∷◌ c) q)), (f, h))
    | inr f ↦ (b, rw e (rw f (ap (◌∷◌ c) q)), h)
  ]
  cons_split c s (d ∷ r) e b q h = (b, rw e (ap (◌∷◌ c) q), h)

  -- What is trimmed off on the right, and the rest.
  pub trim_right_split :
      (s : Text) → (b : Text) × (s ≡ trim_right p s ++ b) × All (λ c. p c ≡ true) b
  trim_right_split [] = ([], unfold trim_right in refl, tt)
  trim_right_split (c ∷ s) =
      let (b, q, h) = trim_right_split s in cons_split c s (trim_right p s) refl b q h

  -- A text of which nothing is left held nothing else.
  pub trim_nil : (s : Text) → trim p s ≡ [] → All (λ c. p c ≡ true) s
  unfolding trim
  trim_nil s e =
      let (a, q, h) = trim_left-split s in
      let (b, r, k) = trim_right_split (trim_left p s) in
      let rest : trim_left p s ≡ b = r ∙ ap (λ u. u ++ b) e in
      rw q (All-append _ a (trim_left p s) h (rw rest k))

  pub trim-All : (s : Text) → All (λ c. p c ≡ true) s → trim p s ≡ []
  unfolding trim trim_left trim_right
  trim-All [] h = refl
  trim-All (c ∷ s) h = rw h.0 (trim-All s h.1)
