-- ===== src/Registry/Expiry.antt =====
-- Deadlines: which work ids are past theirs, and what extending one does.
use agentic_preview.Common.{
  ℕ, ◌≡◌, ◌≢◌, ◌↔◌, ◌≤◌, ◌<◌, refl, sym, ap, ◌∙◌, true, false, List, [], ◌∷◌, arith, All, In, ◌⊎◌,
  inl, inr, Bool-cases, In-All, &&_parts, eq_text, eq_text_iff, ◌&&◌,
}
use agentic_preview.Common.Sort.{In-sort, text_ltb, contains, contains_iff, sort_texts}
use agentic_preview.Text.{Text}
use agentic_preview.Preview.{ServiceKey, Preview}
use agentic_preview.Registry.{
  Registry, is_expired, expired_in, expired, update_all, touched, touch, add_new,
}

pub In-add_new : (x y : Text) (xs : List Text) → In x (add_new y xs) ↔ ((x ≡ y) ⊎ In x xs)
unfolding add_new
In-add_new x y xs = elim (Bool-cases (contains y xs)) [
  | inl e ↦ rw e ((λ h. inr h), elim [ inl q ↦ rw q ((contains_iff y xs).0 e) | inr i ↦ i ])
  | inr e ↦ rw e ((λ h. h), (λ h. h))
]

-- A deadline that is set and not ahead.
abbrev pub IsPast : ℕ → Preview → Type 0
IsPast now p = (p.expires_at ≢ 0) × (p.expires_at ≤ now)

-- An entry of the registry that is past its deadline under a work id.
abbrev pub PastDeadline : Text → ℕ → Registry → Type 0
PastDeadline w now r =
    (k : ServiceKey) × (p : Preview) × In (k, p) r × (p.work_id ≡ w) × IsPast now p

is_expired_iff : (now : ℕ) (p : Preview) → (is_expired now p ≡ true) ↔ IsPast now p
is_expired_iff now p = ((λ h. (ground arith, ground arith)), (λ h. ground arith))

expired_in_iff :
    (w : Text) (now : ℕ) (r : Registry) → In w (expired_in now r) ↔ PastDeadline w now r
unfolding expired_in
expired_in_iff w now [] = ((λ h. absurd h), (λ h. absurd h.2))
expired_in_iff w now ((k, p) ∷ r) =
    let ih = expired_in_iff w now r in
    let m = In-add_new w p.work_id (expired_in now r) in
    elim (Bool-cases (is_expired now p)) [
      | inl e ↦ rw e (
        (λ h. elim (m.0 h) [
          | inl q ↦ (k, p, inl refl, sym q, (is_expired_iff now p).0 e)
          | inr i ↦ later (ih.0 i)
        ]),
        (λ h. m.1 (elim h.2 [
          | inl q ↦ inl (sym h.3 ∙ ap (λ (x : ServiceKey × Preview). x.1.work_id) q)
          | inr i ↦ inr (ih.1 (h.0, h.1, i, h.3, h.4))
        ])),
      )
      | inr e ↦ rw e (
        (λ h. later (ih.0 h)),
        (λ h. elim h.2 [
          | inl q ↦ absurd (live e (rw (ap (λ (x : ServiceKey × Preview). x.1) q) at h.4))
          | inr i ↦ ih.1 (h.0, h.1, i, h.3, h.4)
        ]),
      )
    ]
  where
    later : PastDeadline w now r → PastDeadline w now ((k, p) ∷ r)
    later (j, q, i, a, b) = (j, q, inr i, a, b)

    live : is_expired now p ≡ false → IsPast now p → ⊥
    live e h = ground arith

-- The work ids that `expired` reports are those that have a preview past its deadline.
pub expired_iff : (r : Registry) (now : ℕ) (w : Text) → In w (expired r now) ↔ PastDeadline w now r
unfolding expired sort_texts
expired_iff r now w =
    let s = In-sort text_ltb w (expired_in now r) in
    let e = expired_in_iff w now r in ((λ h. e.0 (s.0 h)), (λ h. s.1 (e.1 h)))

-- A scheduled intercept has no deadline.
abbrev pub ScheduledLive : Registry → Type 0
ScheduledLive = All (λ e. (e.1.schedule ≡ []) ⊎ (e.1.expires_at ≡ 0))

pub update_all-ScheduledLive :
    (f : Preview → Preview)
    → ((p : Preview) → ((f p).schedule ≡ p.schedule) × ((f p).expires_at ≡ p.expires_at))
    → (r : Registry) → ScheduledLive r
    → ScheduledLive (update_all f r)
unfolding update_all
update_all-ScheduledLive f same [] h = tt
update_all-ScheduledLive f same ((k, p) ∷ r) h =
    (rw ((same p).0, (same p).1) h.0, update_all-ScheduledLive f same r h.1)

pub touch-ScheduledLive :
    (r : Registry) (w : Text) (until : ℕ) → ScheduledLive r → ScheduledLive (touch r w until)
unfolding touch update_all touched
touch-ScheduledLive [] w until s = tt
touch-ScheduledLive ((k, p) ∷ r) w until s =
    (ground (arith, eq_text_iff p.schedule []), touch-ScheduledLive r w until s.1)

In-touch :
    (r : Registry) (w : Text) (until : ℕ) (k : ServiceKey) (p : Preview)
    → In (k, p) r
    → In (k, touched w until p) (touch r w until)
unfolding touch update_all
In-touch ((j, q) ∷ r) w until k p (inl e) =
    inl (ap (λ (x : ServiceKey × Preview). (x.0, touched w until x.1)) e)
In-touch ((j, q) ∷ r) w until k p (inr i) = inr (In-touch r w until k p i)
In-touch [] w until k p i = absurd i

In-touch⁻¹ :
    (r : Registry) (w : Text) (until : ℕ) (k : ServiceKey) (p : Preview)
    → In (k, p) (touch r w until)
    → (q : Preview) × In (k, q) r × (p ≡ touched w until q)
unfolding touch update_all
In-touch⁻¹ [] w until k p i = absurd i
In-touch⁻¹ ((j, q) ∷ r) w until k p (inl e) = (
  q,
  inl (ap (λ (x : ServiceKey × Preview). (x.0, q)) e),
  ap (λ (x : ServiceKey × Preview). x.1) e,
)
In-touch⁻¹ ((j, q) ∷ r) w until k p (inr i) =
    let (q', i', e) = In-touch⁻¹ r w until k p i in (q', inr i', e)

touched-IsPast :
    (w : Text) (until now : ℕ) (p : Preview)
    → now < until
    → (p.schedule ≡ []) ⊎ (p.expires_at ≡ 0)
    → IsPast now (touched w until p) ↔ (IsPast now p × (p.work_id ≢ w))
unfolding touched
touched-IsPast w until now p h s =
    elim (Bool-cases (eq_text p.work_id w && eq_text p.schedule [])) [
      | inl e ↦ rw e (
        (λ k. absurd (omega arith)),
        (λ k. absurd (k.1 ((eq_text_iff p.work_id w).0 (&&_parts _ _ e).0))),
      )
      | inr e ↦ rw e ((λ k. (k, other e k)), (λ k. k.0))
    ]
  where
    other : (eq_text p.work_id w && eq_text p.schedule []) ≡ false → IsPast now p → p.work_id ≢ w
    other e k q = elim s [
      | inl n ↦ absurd (ground (arith, eq_text_iff p.work_id w, eq_text_iff p.schedule []))
      | inr z ↦ absurd (k.0 z)
    ]

-- Moving the deadline of a work id to a time ahead takes exactly that work id off the list of the
-- expired, where no scheduled intercept has a deadline.
pub expired-touch :
    (r : Registry) (w : Text) (until now : ℕ) (v : Text)
    → now < until
    → ScheduledLive r
    → In v (expired (touch r w until) now) ↔ (In v (expired r now) × (v ≢ w))
expired-touch r w until now v h s = (
  (λ i.
      let (k, p, j, a, b) = (expired_iff (touch r w until) now v).0 i in
      let (q, l, e) = In-touch⁻¹ r w until k p j in
      let past = (touched-IsPast w until now q h (live k q l)).0 (rw e at b) in
      let same : q.work_id ≡ v =
        sym (work_id-touched q) ∙ sym (ap (λ (x : Preview). x.work_id) e) ∙ a in
      ((expired_iff r now v).1 (k, q, l, same, past.0), rw (← same) past.1)),
  (λ i.
      let (k, p, j, a, b) = (expired_iff r now v).0 i.0 in
      (expired_iff (touch r w until) now v).1 (
        k,
        touched w until p,
        In-touch r w until k p j,
        work_id-touched p ∙ a,
        (touched-IsPast w until now p h (live k p j)).1 (b, rw a i.1),
      )),
)
  where
    live : (k : ServiceKey) (p : Preview) → In (k, p) r → (p.schedule ≡ []) ⊎ (p.expires_at ≡ 0)
    live k p j = In-All (λ e. (e.1.schedule ≡ []) ⊎ (e.1.expires_at ≡ 0)) (k, p) r s j

    work_id-touched : (p : Preview) → (touched w until p).work_id ≡ p.work_id
    work_id-touched p = unfold touched in (ground arith)
