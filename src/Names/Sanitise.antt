-- ===== src/Names/Sanitise.antt =====
-- What `sanitise` makes of any text: nothing, or a DNS label without double dashes before the clip.
use agentic_preview.Common.{
  ℕ, suc, zero, ◌≤◌, ◌<◌, ◌≡◌, ◌≢◌, refl, ◌∙◌, Bool, true, false, [], ◌∷◌, map, arith, ltb,
  &&_parts, length, take, all, ◌⊎◌, inl, inr, Bool-cases, length-take-le, le→leb,
}
use agentic_preview.Text.{Text, trim, trim_left, trim_right, cons_trimmed, to_lower}
use agentic_preview.Names.{
  is_alnum, is_label_char, starts, ends, is_label, is_dash, plain, has_double, replace_doubles,
  collapse, clipped, sanitise,
}

abbrev Labels : Text → Type 0
Labels s = all is_label_char s ≡ true

all-map-plain : (s : Text) → Labels (map plain s)
unfolding all
all-map-plain [] = refl
all-map-plain (c ∷ s) = ground (arith, all-map-plain s)

trim_left-Labels : (s : Text) → Labels s → Labels (trim_left is_dash s)
unfolding all trim_left
trim_left-Labels [] h = refl
trim_left-Labels (c ∷ s) h = ground (arith, trim_left-Labels s)

cons_trimmed-Labels :
    (c : ℕ) (s : Text) → is_label_char c ≡ true → Labels s → Labels (cons_trimmed is_dash c s)
unfolding all cons_trimmed
cons_trimmed-Labels c [] h k = ground arith
cons_trimmed-Labels c (d ∷ s) h k = rw h k

trim_right-Labels : (s : Text) → Labels s → Labels (trim_right is_dash s)
unfolding trim_right
trim_right-Labels [] h = h
trim_right-Labels (c ∷ s) h =
    let p = all-cons c s h in
    cons_trimmed-Labels c (trim_right is_dash s) p.0 (trim_right-Labels s p.1)
  where
    all-cons : (c : ℕ) (s : Text) → Labels (c ∷ s) → (is_label_char c ≡ true) × Labels s
    all-cons c s h = unfold all in (&&_parts _ _ h)

trim-Labels : (s : Text) → Labels s → Labels (trim is_dash s)
unfolding trim
trim-Labels s h = trim_right-Labels (trim_left is_dash s) (trim_left-Labels s h)

take-Labels : (n : ℕ) (s : Text) → Labels s → Labels (take n s)
unfolding all
take-Labels zero s h = refl
take-Labels (suc n) [] h = refl
take-Labels (suc n) (c ∷ s) h = ground (arith, take-Labels n s)

length-trim_left-le : (p : ℕ → Bool) (s : Text) → length (trim_left p s) ≤ length s
unfolding trim_left
length-trim_left-le p [] = omega arith
length-trim_left-le p (c ∷ s) = ground (arith, length-trim_left-le p s)

length-cons_trimmed-le :
    (p : ℕ → Bool) (c : ℕ) (s : Text) → length (cons_trimmed p c s) ≤ suc (length s)
unfolding cons_trimmed
length-cons_trimmed-le p c [] = ground arith
length-cons_trimmed-le p c (d ∷ s) = omega arith

length-trim_right-le : (p : ℕ → Bool) (s : Text) → length (trim_right p s) ≤ length s
unfolding trim_right
length-trim_right-le p [] = omega arith
length-trim_right-le p (c ∷ s) =
    omega (arith, length-trim_right-le p s, length-cons_trimmed-le p c (trim_right p s))

-- A trimmed text is empty, or starts and ends with something else than a dash.
abbrev Edges : Text → Type 0
Edges s = (s ≡ []) ⊎ ((starts is_alnum s ≡ true) × (ends is_alnum s ≡ true))

cons_trimmed-ends :
    (c : ℕ) (s : Text)
    → is_label_char c ≡ true
    → (s ≡ []) ⊎ (ends is_alnum s ≡ true)
    → (cons_trimmed is_dash c s ≡ []) ⊎ (ends is_alnum (cons_trimmed is_dash c s) ≡ true)
unfolding cons_trimmed ends
cons_trimmed-ends c [] h k = ground arith
cons_trimmed-ends c (d ∷ s) h (inl e) = absurd (ground arith)
cons_trimmed-ends c (d ∷ s) h (inr e) = inr e

trim_right-ends :
    (s : Text)
    → Labels s
    → (trim_right is_dash s ≡ []) ⊎ (ends is_alnum (trim_right is_dash s) ≡ true)
unfolding trim_right
trim_right-ends [] h = inl refl
trim_right-ends (c ∷ s) h =
    let p = labels c s h in cons_trimmed-ends c (trim_right is_dash s) p.0 (trim_right-ends s p.1)
  where
    labels : (c : ℕ) (s : Text) → Labels (c ∷ s) → (is_label_char c ≡ true) × Labels s
    labels c s h = unfold all in (&&_parts _ _ h)

-- Trimming on the right keeps the start of what is left.
trim_right-starts :
    (c : ℕ) (s : Text) → is_alnum c ≡ true → starts is_alnum (trim_right is_dash (c ∷ s)) ≡ true
unfolding trim_right
trim_right-starts c s h = go (trim_right is_dash s)
  where
    go : (r : Text) → starts is_alnum (cons_trimmed is_dash c r) ≡ true
    go [] = unfold starts cons_trimmed in (ground arith)
    go (d ∷ r) = unfold starts cons_trimmed in h

trim_left-starts :
    (s : Text)
    → Labels s
    → (trim_left is_dash s ≡ []) ⊎ (starts is_alnum (trim_left is_dash s) ≡ true)
unfolding trim_left starts all
trim_left-starts [] h = inl refl
trim_left-starts (c ∷ s) h = ground (arith, trim_left-starts s)

-- Trimming leaves nothing, or edges that stay.
trim-Edges : (s : Text) → Labels s → Edges (trim is_dash s)
unfolding trim
trim-Edges s h = go (trim_left is_dash s) (trim_left-Labels s h) (trim_left-starts s h)
  where
    go :
        (r : Text) → Labels r → (r ≡ []) ⊎ (starts is_alnum r ≡ true) → Edges (trim_right is_dash r)
    go [] l k = inl (unfold trim_right in refl)
    go (c ∷ r) l (inl e) = absurd (ground arith)
    go (c ∷ r) l (inr e) = elim (trim_right-ends (c ∷ r) l) [
      | inl z ↦ inl z
      | inr z ↦ inr (trim_right-starts c r (unfold starts in e), z)
    ]

-- A pass over the doubled dashes keeps the characters and both edges, and shortens the text.
replace-Labels : (s : Text) → Labels s → Labels (replace_doubles s)
unfolding replace_doubles all
replace-Labels [] h = refl
replace-Labels (c ∷ []) h = h
replace-Labels (c ∷ d ∷ s) h = ground (arith, replace-Labels s, replace-Labels (d ∷ s))

replace-starts : (s : Text) → starts is_alnum (replace_doubles s) ≡ starts is_alnum s
unfolding replace_doubles starts
replace-starts [] = refl
replace-starts (c ∷ []) = refl
replace-starts (c ∷ d ∷ s) = ground arith

ends-cons : (c : ℕ) (s : Text) → s ≢ [] → ends is_alnum (c ∷ s) ≡ ends is_alnum s
unfolding ends
ends-cons c [] h = absurd (h refl)
ends-cons c (d ∷ s) h = refl

replace-ne-nil : (c : ℕ) (s : Text) → replace_doubles (c ∷ s) ≢ []
unfolding replace_doubles
replace-ne-nil c [] = ground arith
replace-ne-nil c (d ∷ s) = ground arith

replace-ends : (s : Text) → ends is_alnum (replace_doubles s) ≡ ends is_alnum s
unfolding replace_doubles
replace-ends [] = refl
replace-ends (c ∷ []) = refl
replace-ends (c ∷ d ∷ []) = unfold ends in (ground arith)
replace-ends (c ∷ d ∷ e ∷ s) = ground (
  arith,
  replace-ends (e ∷ s),
  replace-ends (d ∷ e ∷ s),
  ends-cons c (replace_doubles (e ∷ s)),
  ends-cons c (replace_doubles (d ∷ e ∷ s)),
  replace-ne-nil e s,
  replace-ne-nil d (e ∷ s),
  ends-cons c (d ∷ e ∷ s),
  ends-cons d (e ∷ s),
)

length-replace-le : (s : Text) → length (replace_doubles s) ≤ length s
unfolding replace_doubles
length-replace-le [] = omega arith
length-replace-le (c ∷ []) = omega arith
length-replace-le (c ∷ d ∷ s) = ground (arith, length-replace-le s, length-replace-le (d ∷ s))

length-replace-lt : (s : Text) → has_double s ≡ true → length (replace_doubles s) < length s
unfolding replace_doubles has_double
length-replace-lt [] h = absurd (ground arith)
length-replace-lt (c ∷ []) h = absurd (ground arith)
length-replace-lt (c ∷ d ∷ s) h = ground (arith, length-replace-le s, length-replace-lt (d ∷ s))

-- With its length as fuel the loop ends by its test: no double dash is left.
pub collapse-single : (fuel : ℕ) (s : Text) → length s ≤ fuel → has_double (collapse fuel s) ≡ false
unfolding collapse
collapse-single zero [] h = unfold has_double in refl
collapse-single zero (c ∷ s) h = absurd (omega arith)
collapse-single (suc fuel) s h = elim (Bool-cases (has_double s)) [
  | inl e ↦ rw e (collapse-single fuel (replace_doubles s) (omega (arith, length-replace-lt s e)))
  | inr e ↦ rw (e, e) refl
]

record IsShaped (s : Text) : Type 0 where
  labels : Labels s
  edges : Edges s

replace-IsShaped : (s : Text) → IsShaped s → IsShaped (replace_doubles s)
replace-IsShaped s h = record {
  labels = replace-Labels s h.labels;
  edges = elim h.edges [
    | inl e ↦ inl (rw e (unfold replace_doubles in refl))
    | inr e ↦ inr (replace-starts s ∙ e.0, replace-ends s ∙ e.1)
  ];
}

collapse-IsShaped : (fuel : ℕ) (s : Text) → IsShaped s → IsShaped (collapse fuel s)
unfolding collapse
collapse-IsShaped zero s h = h
collapse-IsShaped (suc fuel) s h = elim (Bool-cases (has_double s)) [
  | inl e ↦ rw e (collapse-IsShaped fuel (replace_doubles s) (replace-IsShaped s h))
  | inr e ↦ rw e h
]

length-trim-le : (s : Text) → length (trim is_dash s) ≤ length s
unfolding trim
length-trim-le s =
    omega (arith, length-trim_right-le is_dash (trim_left is_dash s), length-trim_left-le is_dash s)

IsShaped-label : (s : Text) → IsShaped s → length s ≤ 63 → (s ≡ []) ⊎ (is_label s ≡ true)
unfolding is_label
IsShaped-label s h l = elim h.edges [
  | inl e ↦ inl e
  | inr e ↦ inr (rw (e.0, e.1, h.labels, le→leb (length s) 63 l) refl)
]

clipped-label : (s : Text) → IsShaped s → (clipped s ≡ []) ⊎ (is_label (clipped s) ≡ true)
unfolding clipped
clipped-label s h = elim (Bool-cases (ltb 63 (length s))) [
  | inl e ↦ rw e (
      IsShaped-label (trim is_dash (take 63 s))
        (record {
          labels = trim-Labels (take 63 s) (take-Labels 63 s h.labels);
          edges = trim-Edges (take 63 s) (take-Labels 63 s h.labels);
        })
        (omega (arith, length-trim-le (take 63 s), length-take-le 63 s)))
  | inr e ↦ rw e (IsShaped-label s h (ground arith))
]

-- Whatever the text, `sanitise` returns nothing at all or a DNS label.
pub sanitise_label : (s : Text) → (sanitise s ≡ []) ⊎ (is_label (sanitise s) ≡ true)
unfolding sanitise
sanitise_label s =
    let plains = map plain (to_lower s) in
    let l = all-map-plain (to_lower s) in
    clipped-label _ (
      collapse-IsShaped (length (trim is_dash plains)) (trim is_dash plains)
        (record { labels = trim-Labels plains l; edges = trim-Edges plains l }))
