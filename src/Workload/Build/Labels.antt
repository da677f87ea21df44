-- ===== src/Workload/Build/Labels.antt =====
-- workload.go: the labels and the annotations of a preview's pods.
use agentic_preview.Common.{
  ◌≡◌, refl, inl, inr, [], ◌∷◌, Option, none, some, eq_text, eq_text_iff, text_key, Bool-cases,
  Bool, true, false, if◌then◌else◌,
}
use mathlib.Core.Path.{subst}
use agentic_preview.Common.Assoc.{get, put, get-put, Distinct}
use agentic_preview.Text.{Text, codes}
use agentic_preview.Preview.{Preview}
use agentic_preview.Workload.{
  LabelMap, preview_labels, preview_label, work_id_label, workload_label, managed_by_label,
  managed_by_value,
}
use agentic_preview.Workload.Build.{put_all, is_dropped, kept_annotations}

pub put_all-preview :
    (p : Preview) (name : Text) (labels : LabelMap)
    → get preview_label (put_all (preview_labels p name) labels) ≡ some name
unfolding put_all preview_labels eq_text
put_all-preview p name labels =
    rw (get-put (codes "app") preview_label name (upto labels))
      (rw (get-put preview_label preview_label name (before labels)) refl)
  where
    before : LabelMap → LabelMap
    before m =
        put workload_label p.workload
          (put work_id_label p.work_id (put managed_by_label managed_by_value m))

    upto : LabelMap → LabelMap
    upto m = put preview_label name (before m)

-- The first of two answers.
abbrev pub either : Option Text → Option Text → Option Text
either (some v) o = some v
either none o = o

pub get-put_all :
    (k : Text) (ours labels : LabelMap)
    → Distinct ours
    → get k (put_all ours labels) ≡ either (get k ours) (get k labels)
unfolding get put_all
get-put_all k [] labels d = refl
get-put_all k ((j, v) ∷ ours) labels d = elim (Bool-cases (eq_text j k)) [
  | inl e ↦
      let same = (eq_text_iff j k).0 e in
      let gone : get k ours ≡ none = subst (λ i. get i ours ≡ none) same d.0 in
      rw (get-put_all k ours (put j v labels) d.1, get-put j k v labels, e, gone) refl
  | inr e ↦ rw (get-put_all k ours (put j v labels) d.1, get-put j k v labels, e) refl
]

pub preview_labels-Distinct : (p : Preview) (name : Text) → Distinct (preview_labels p name)
unfolding preview_labels get eq_text
preview_labels-Distinct p name = (refl, (refl, (refl, (refl, (refl, tt)))))

pub get-kept_annotations :
    (k : Text) (m : LabelMap)
    → get k (kept_annotations m) ≡ (if is_dropped k then none else get k m)
unfolding get kept_annotations
get-kept_annotations k [] = elim (Bool-cases (is_dropped k)) [
  | inl e ↦ rw e refl
  | inr e ↦ rw e refl
]
get-kept_annotations k ((j, v) ∷ m) = elim (Bool-cases (eq_text j k)) [
  | inl q ↦ same (get-kept_annotations k m) (is_dropped j) refl ((eq_text_iff j k).0 q) q
  | inr q ↦ elim (Bool-cases (is_dropped j)) [
    | inl e ↦ rw (e, q) (get-kept_annotations k m)
    | inr e ↦ rw (e, q) (get-kept_annotations k m)
  ]
]
  where
    same :
        get k (kept_annotations m) ≡ (if is_dropped k then none else get k m)
        → (b : Bool) → is_dropped j ≡ b
        → j ≡ k
        → eq_text j k ≡ true
        → get k (if b then kept_annotations m else (j, v) ∷ kept_annotations m)
          ≡ (if is_dropped k then none else (if eq_text j k then some v else get k m))
    same rest true e o q =
        let gone : is_dropped k ≡ true = subst (λ i. is_dropped i ≡ true) o e in
        rw (rest, gone) refl
    same rest false e o q =
        let kept : is_dropped k ≡ false = subst (λ i. is_dropped i ≡ false) o e in
        unfold get in (rw (q, kept) refl)
