-- ===== src/Registry/Work.antt =====
-- A whole work id: its entries, its namespaces, and its removal.
use agentic_preview.Common.{
  ◌≡◌, ◌↔◌, refl, sym, ap, ◌∙◌, false, [], ◌∷◌, none, arith, In, inl, inr, Bool-cases, eq_text,
  eq_text_iff, if◌then◌else◌,
}
use agentic_preview.Common.Assoc.{get}
use agentic_preview.Common.Sort.{In-sort, text_ltb, sort_texts}
use agentic_preview.Text.{Text}
use agentic_preview.Preview.{ServiceKey, service_key, Preview}
use agentic_preview.Registry.{
  Registry, namespaces_in, namespaces_of, of_work, remove_work, sort_by_name, by_name,
}
use agentic_preview.Registry.Invariant.{get-without_work}
use agentic_preview.Registry.Expiry.{In-add_new}

-- An entry under the work id.
abbrev pub EntryOf : Text → Preview → Registry → Type 0
EntryOf w p r = (k : ServiceKey) × In (k, p) r × (k.work_id ≡ w)

of_work_iff : (w : Text) (p : Preview) (r : Registry) → In p (of_work w r) ↔ EntryOf w p r
unfolding of_work
of_work_iff w p [] = ((λ h. absurd h), (λ h. absurd h.1))
of_work_iff w p ((k, q) ∷ r) =
    let ih = of_work_iff w p r in
    elim (Bool-cases (eq_text k.work_id w)) [
      | inl e ↦ rw e (
        elim [
          | inl s ↦ (k, inl (ap (λ (x : Preview). (k, x)) s), (eq_text_iff k.work_id w).0 e)
          | inr i ↦ later (ih.0 i)
        ],
        (λ h. elim h.1 [
          | inl s ↦ inl (ap (λ (x : ServiceKey × Preview). x.1) s)
          | inr i ↦ inr (ih.1 (h.0, i, h.2))
        ]),
      )
      | inr e ↦ rw e (
        (λ h. later (ih.0 h)),
        (λ h. elim h.1 [
          | inl s ↦ absurd (apart e (sym (ap (λ (x : ServiceKey × Preview). x.0.work_id) s) ∙ h.2))
          | inr i ↦ ih.1 (h.0, i, h.2)
        ]),
      )
    ]
  where
    later : EntryOf w p r → EntryOf w p ((k, q) ∷ r)
    later (j, i, a) = (j, inr i, a)

    apart : eq_text k.work_id w ≡ false → k.work_id ≡ w → ⊥
    apart e s = ground (arith, eq_text_iff k.work_id w)

-- Removing a work id returns its previews, all of them and no others, leaves none of its keys in the
-- registry, and leaves every other key what it was.
pub remove_work_lem :
    (r : Registry) (w : Text)
    → ((p : Preview) → In p (remove_work r w).1 ↔ EntryOf w p r)
      × ((k : ServiceKey)
          → get k (remove_work r w).0 ≡ (if eq_text k.work_id w then none else get k r))
unfolding remove_work sort_by_name
remove_work_lem r w = (
  (λ p.
      let s = In-sort by_name p (of_work w r) in
      let e = of_work_iff w p r in ((λ h. e.0 (s.0 h)), (λ h. s.1 (e.1 h)))),
  (λ k. get-without_work w k r),
)

-- A namespace in which the work id has an entry.
abbrev pub NamespaceOf : Text → Text → Registry → Type 0
NamespaceOf w ns r =
    (k : ServiceKey) × (p : Preview) × In (k, p) r × (k.work_id ≡ w) × (k.namespace ≡ ns)

namespaces_in_iff : (w ns : Text) (r : Registry) → In ns (namespaces_in w r) ↔ NamespaceOf w ns r
unfolding namespaces_in
namespaces_in_iff w ns [] = ((λ h. absurd h), (λ h. absurd h.2))
namespaces_in_iff w ns ((k, q) ∷ r) =
    let ih = namespaces_in_iff w ns r in
    let m = In-add_new ns k.namespace (namespaces_in w r) in
    elim (Bool-cases (eq_text k.work_id w)) [
      | inl e ↦ rw e (
        (λ h. elim (m.0 h) [
          | inl s ↦ (k, q, inl refl, (eq_text_iff k.work_id w).0 e, sym s)
          | inr i ↦ later (ih.0 i)
        ]),
        (λ h. m.1 (elim h.2 [
          | inl s ↦ inl (sym h.4 ∙ ap (λ (x : ServiceKey × Preview). x.0.namespace) s)
          | inr i ↦ inr (ih.1 (h.0, h.1, i, h.3, h.4))
        ])),
      )
      | inr e ↦ rw e (
        (λ h. later (ih.0 h)),
        (λ h. elim h.2 [
          | inl s ↦ absurd (apart e (sym (ap (λ (x : ServiceKey × Preview). x.0.work_id) s) ∙ h.3))
          | inr i ↦ ih.1 (h.0, h.1, i, h.3, h.4)
        ]),
      )
    ]
  where
    later : NamespaceOf w ns r → NamespaceOf w ns ((k, q) ∷ r)
    later (j, p, i, a, b) = (j, p, inr i, a, b)

    apart : eq_text k.work_id w ≡ false → k.work_id ≡ w → ⊥
    apart e s = ground (arith, eq_text_iff k.work_id w)

-- `namespacesOf` lists the namespaces in which the work id has an entry, and no others.
pub namespaces_of_iff :
    (r : Registry) (w ns : Text) → In ns (namespaces_of r w) ↔ NamespaceOf w ns r
unfolding namespaces_of sort_texts
namespaces_of_iff r w ns =
    let s = In-sort text_ltb ns (namespaces_in w r) in
    let e = namespaces_in_iff w ns r in ((λ h. e.0 (s.0 h)), (λ h. s.1 (e.1 h)))
