-- ===== src/Text/Fields.antt =====
-- Laws of `strings.Fields`.
use agentic_preview.Common.{◌≡◌, ◌≢◌, refl, Bool, true, false, List, [], ◌∷◌, ◌++◌, All, ap}
use mathlib.Core.List.{append-nil}
use mathlib.Core.Path.{subst}
use agentic_preview.Text.{Text, codes, is_space, cons_first, fields_from, fields}

-- A word, in front of a text that does not go on with one, is a piece of its own.
fields_from-word :
    (w s : Text) (fs : List Text)
    → w ≢ []
    → All (λ c. is_space c ≡ false) w
    → fields_from s ≡ (fs, false)
    → fields_from (w ++ s) ≡ (w ∷ fs, true)
unfolding fields_from cons_first
fields_from-word [] s fs n h e = absurd (n refl)
fields_from-word (c ∷ []) s fs n h e = rw (e, h.0) refl
fields_from-word (c ∷ d ∷ w) s fs n h e =
    rw (fields_from-word (d ∷ w) s fs (λ q. cc) h.1 e, h.0) refl

fields_from-blank :
    (s : Text) (fs : List Text) → (fields_from s).0 ≡ fs → fields_from (b' ' ∷ s) ≡ (fs, false)
unfolding fields_from is_space
fields_from-blank s fs e = rw e refl

-- Two words with a blank between them.
pub fields-words :
    (v w : Text)
    → v ≢ []
    → w ≢ []
    → All (λ c. is_space c ≡ false) v
    → All (λ c. is_space c ≡ false) w
    → fields (v ++ (codes " " ++ w)) ≡ v ∷ w ∷ []
unfolding fields
fields-words v w m n h k =
    let padded = fields_from-word w [] [] n k (unfold fields_from in refl) in
    let last : fields_from w ≡ (w ∷ [], true) =
      subst (λ x. fields_from x ≡ (w ∷ [], true)) (append-nil w) padded in
    let blank = fields_from-blank w (w ∷ []) (rw last refl) in
    ap (λ (t : List Text × Bool). t.0) (fields_from-word v (b' ' ∷ w) (w ∷ []) m h blank)
