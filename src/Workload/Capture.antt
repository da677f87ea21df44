-- ===== src/Workload/Capture.antt =====
-- workload.go: the check that no Service of the namespace would select the pods of a preview.
use agentic_preview.Common.{
  ◌≡◌, ◌≢◌, ◌↔◌, ◌⊎◌, refl, inl, inr, Bool, true, false, not, ◌&&◌, ◌||◌, List, [], ◌∷◌, ◌++◌,
  eq_text, eq_text_iff, All, arith, Bool-cases,
}
use agentic_preview.Common.Sort.{sort, sort_texts, insert_sorted, text_ltb}
use agentic_preview.Text.{Text, codes, join}
use agentic_preview.Workload.{LabelMap, label, owned_by_us}
use agentic_preview.Workload.Build.{Service}

unfoldable pub matches : LabelMap → LabelMap → Bool
unfolding label eq_text
matches [] labels = true
matches ((k, v) ∷ selector) labels = eq_text (label labels k) v && matches selector labels

abbrev pub no_selector : LabelMap → Bool
no_selector [] = true
no_selector (e ∷ es) = false

-- A Service that the check passes over.
unfoldable pub is_skipped : {X : Type 0} → Text → Service X → Bool
unfolding owned_by_us eq_text
is_skipped name svc = eq_text svc.name name || (owned_by_us svc.labels || no_selector svc.selector)

unfoldable pub pairs_of : LabelMap → List Text
pairs_of [] = []
pairs_of ((k, v) ∷ es) = (k ++ (codes "=" ++ v)) ∷ pairs_of es

unfoldable pub hit : {X : Type 0} → Service X → Text
unfolding pairs_of join sort_texts
hit svc =
    svc.name
    ++ (codes " (selector " ++ (join (codes ",") (sort_texts (pairs_of svc.selector)) ++ codes ")"))

abbrev pub hit_if : Bool → Text → List Text → List Text
hit_if true x rest = x ∷ rest
hit_if false x rest = rest

unfoldable pub hits : {X : Type 0} → List (Service X) → Text → LabelMap → List Text
unfolding is_skipped matches hit
hits [] name labels = []
hits (svc ∷ svcs) name labels =
    hit_if (not (is_skipped name svc) && matches svc.selector labels) (hit svc)
      (hits svcs name labels)

-- `capturedBy`
unfoldable pub captured_by : {X : Type 0} → List (Service X) → Text → LabelMap → List Text
unfolding hits sort_texts
captured_by svcs name labels = sort_texts (hits svcs name labels)

-- Every label that the selector asks for is there with its value.
abbrev pub Selects : LabelMap → LabelMap → Type 0
Selects selector labels = All (λ e. label labels e.0 ≡ e.1) selector

-- A Service that is neither the preview's own nor another preview's does not select the labels, where
-- it selects anything.
abbrev pub LeavesAlone : {X : Type 0} → Text → LabelMap → Service X → Type 0
LeavesAlone name labels svc = (is_skipped name svc ≡ true) ⊎ (Selects svc.selector labels → ⊥)

matches_iff :
    (selector labels : LabelMap) → (matches selector labels ≡ true) ↔ Selects selector labels
unfolding matches
matches_iff [] labels = ((λ h. tt), (λ h. refl))
matches_iff ((k, v) ∷ selector) labels =
    let ih = matches_iff selector labels in
    let e = eq_text_iff (label labels k) v in
    ((λ h. (e.0 (ground arith), ih.0 (ground arith))), (λ h. matched_both (e.1 h.0) (ih.1 h.1)))
  where
    matched_both :
        eq_text (label labels k) v ≡ true
        → matches selector labels ≡ true
        → (eq_text (label labels k) v && matches selector labels) ≡ true
    matched_both a b = ground arith

inserted_some : (x : Text) (ys : List Text) → insert_sorted text_ltb x ys ≢ []
unfolding insert_sorted
inserted_some x [] = λ q. ground arith
inserted_some x (y ∷ ys) = λ q. ground arith

sorted_none : (xs : List Text) → (sort_texts xs ≡ []) ↔ (xs ≡ [])
unfolding sort_texts sort
sorted_none [] = ((λ h. refl), (λ h. refl))
sorted_none (x ∷ xs) =
    ((λ h. absurd (inserted_some x (sort_texts xs) h)), (λ h. absurd (ground arith)))

hits_none :
    {X : Type 0} (svcs : List (Service X)) (name : Text) (labels : LabelMap)
    → (hits svcs name labels ≡ []) ↔ All (LeavesAlone name labels) svcs
unfolding hits
hits_none [] name labels = ((λ h. tt), (λ h. refl))
hits_none (svc ∷ svcs) name labels =
    step (hits_none svcs name labels) (not (is_skipped name svc) && matches svc.selector labels)
      refl
  where
    clash :
        (not (is_skipped name svc) && matches svc.selector labels) ≡ true
        → LeavesAlone name labels svc
        → ⊥
    clash e (inl a) = absurd (ground arith)
    clash e (inr n) = n ((matches_iff svc.selector labels).0 (ground arith))

    refused :
        (not (is_skipped name svc) && matches svc.selector labels) ≡ false
        → is_skipped name svc ≡ false
        → matches svc.selector labels ≡ true
        → ⊥
    refused e a m = absurd (ground arith)

    alone :
        (not (is_skipped name svc) && matches svc.selector labels) ≡ false
        → LeavesAlone name labels svc
    alone e = elim (Bool-cases (is_skipped name svc)) [
      | inl a ↦ inl a
      | inr a ↦ inr (λ s. refused e a ((matches_iff svc.selector labels).1 s))
    ]

    step :
        (hits svcs name labels ≡ []) ↔ All (LeavesAlone name labels) svcs
        → (b : Bool) → (not (is_skipped name svc) && matches svc.selector labels) ≡ b
        → (hit_if b (hit svc) (hits svcs name labels) ≡ [])
          ↔ (LeavesAlone name labels svc × All (LeavesAlone name labels) svcs)
    step ih true e = ((λ h. absurd (ground arith)), (λ h. absurd (clash e h.0)))
    step ih false e = ((λ h. (alone e, ih.0 h)), (λ h. ih.1 h.1))

-- capturedBy finds nothing exactly where every Service of the list is the preview's own, another
-- preview's, without a selector, or asks for some label that the pods do not carry with that value.
pub captured_by-none_iff :
    {X : Type 0} (svcs : List (Service X)) (name : Text) (labels : LabelMap)
    → (captured_by svcs name labels ≡ []) ↔ All (LeavesAlone name labels) svcs
unfolding captured_by
captured_by-none_iff svcs name labels =
    let s = sorted_none (hits svcs name labels) in
    let h = hits_none svcs name labels in ((λ e. h.0 (s.0 e)), (λ a. s.1 (h.1 a)))
