-- ===== src/Registry/Mode.antt =====
-- A workload runs in one mode at a time: `conflictingMode` is the check that keeps it so.
use agentic_preview.Common.{
  ℕ, ◌≡◌, ◌≢◌, ◌↔◌, refl, sym, Bool, true, false, not, [], ◌∷◌, none, some, arith, All, In, ◌⊎◌,
  inl, inr, Bool-cases, eq_text, eq_text_iff, ◌&&◌,
}
use agentic_preview.Common.Assoc.{delete, Pairs, put-Pairs, delete-Pairs}
use agentic_preview.Common.Result.{ok}
use agentic_preview.Text.{Text}
use agentic_preview.Preview.{
  ServiceKey, service_key, same_key, same_key_iff, Preview, key, agent_key,
}
use agentic_preview.Registry.{
  Registry, added, add, conflicting_mode, other_mode, update_all, without_work,
}
use agentic_preview.Registry.Invariant.{IsRegistry, add-eq-ok, without_work-All}

-- Not on the same workload, or in the same mode.
abbrev pub SameMode : Preview → Preview → Type 0
SameMode p q = (agent_key q ≢ agent_key p) ⊎ (q.global ≡ p.global)

-- Whatever previews share a workload share its mode.
abbrev pub SingleMode : Registry → Type 0
SingleMode = Pairs SameMode

other_mode_iff : (a b : Bool) → (other_mode a b ≡ false) ↔ (a ≡ b)
other_mode_iff a b = ground arith

-- `conflictingMode` answers nothing exactly where every entry of another key on the workload is in
-- the mode of the preview.
pub conflicting_mode-none_iff :
    (r : Registry) (p : Preview)
    → (conflicting_mode r p ≡ none) ↔ All (λ e. (e.0 ≡ key p) ⊎ SameMode p e.1) r
unfolding conflicting_mode
conflicting_mode-none_iff [] p = ((λ _. tt), (λ _. refl))
conflicting_mode-none_iff ((k, ex) ∷ r) p =
    let ih = conflicting_mode-none_iff r p in
    elim (Bool-cases (same_key k (key p))) [
      | inl s ↦ rw s ((λ h. (inl ((same_key_iff k (key p)).0 s), ih.0 h)), (λ h. ih.1 h.1))
      | inr s ↦ elim (Bool-cases (eq_text (agent_key ex) (agent_key p))) [
        | inr a ↦
            rw (s, a)
              (
                (λ h. (
                  inr (inl (λ q. ground (arith, eq_text_iff (agent_key ex) (agent_key p)))),
                  ih.0 h,
                )),
                (λ h. ih.1 h.1),
              )
        | inl a ↦ elim (Bool-cases (other_mode ex.global p.global)) [
          | inr m ↦
              rw (s, a, m)
                (
                  (λ h. (inr (inr ((other_mode_iff ex.global p.global).0 m)), ih.0 h)),
                  (λ h. ih.1 h.1),
                )
          | inl m ↦ rw (s, a, m) ((λ h. cc), (λ h. absurd (clash s a m h.0)))
        ]
      ]
    ]
  where
    clash :
        same_key k (key p) ≡ false
        → eq_text (agent_key ex) (agent_key p) ≡ true
        → other_mode ex.global p.global ≡ true
        → (k ≡ key p) ⊎ SameMode p ex
        → ⊥
    clash s a m (inl q) = absurd (ground (arith, same_key_iff k (key p)))
    clash s a m (inr (inl n)) = n ((eq_text_iff _ _).0 a)
    clash s a m (inr (inr g)) = absurd (ground (arith, other_mode_iff ex.global p.global))

-- What it answers is an entry of another key, on the same workload, in the other mode.
pub conflicting_mode-some :
    (r : Registry) (p ex : Preview)
    → conflicting_mode r p ≡ some ex
    → (k : ServiceKey) × In (k, ex) r
      × (k ≢ key p)
      × (agent_key ex ≡ agent_key p)
      × (ex.global ≢ p.global)
unfolding conflicting_mode
conflicting_mode-some [] p ex h = absurd (ground arith)
conflicting_mode-some ((k, e) ∷ r) p ex h =
    elim (Bool-cases (
      not (same_key k (key p))
      && (eq_text (agent_key e) (agent_key p) && other_mode e.global p.global))) [
        | inl c ↦ found (rw c at h) c
        | inr c ↦
            let (j, i, rest, a, m) = conflicting_mode-some r p ex (rw c at h) in
            (j, inr i, rest, a, m)
      ]
  where
    found :
        some e ≡ some ex
        → (not (same_key k (key p))
            && (eq_text (agent_key e) (agent_key p) && other_mode e.global p.global))
          ≡ true
        → (j : ServiceKey) × In (j, ex) ((k, e) ∷ r)
          × (j ≢ key p)
          × (agent_key ex ≡ agent_key p)
          × (ex.global ≢ p.global)
    found q c =
        let e_is : e ≡ ex = cc in
        rw (sym e_is) (
          k,
          inl refl,
          (λ s. ground (arith, same_key_iff k (key p))),
          (eq_text_iff _ _).0 (ground arith),
          (λ g. ground (arith, other_mode_iff e.global p.global)),
        )

SameMode-flip : (p q : Preview) → SameMode p q → SameMode q p
SameMode-flip p q (inl n) = inl (λ e. n (sym e))
SameMode-flip p q (inr g) = inr (sym g)

-- A preview that conflicts with nothing can be added.
pub added-SingleMode :
    (r : Registry) (p : Preview) (now : ℕ)
    → IsRegistry r
    → SingleMode r
    → conflicting_mode r p ≡ none
    → SingleMode (added r p now)
unfolding added
added-SingleMode r p now v s c =
    put-Pairs SameMode SameMode-flip (key p) _ r v.distinct s ((conflicting_mode-none_iff r p).0 c)

-- In a well formed registry that keeps every workload in one mode, where `conflictingMode` finds
-- nothing for a preview, a successful `add` of it keeps every workload in one mode.
pub add-SingleMode :
    (r : Registry) (p : Preview) (now : ℕ) {r' : Registry}
    → IsRegistry r
    → SingleMode r
    → conflicting_mode r p ≡ none
    → add r p now ≡ ok r'
    → SingleMode r'
add-SingleMode r p now v s c h =
    let (f, e) = add-eq-ok r p now h in rw (sym e) (added-SingleMode r p now v s c)

pub delete-SingleMode : (r : Registry) (k : ServiceKey) → SingleMode r → SingleMode (delete k r)
delete-SingleMode r k s = delete-Pairs SameMode k r s

pub without_work-SingleMode :
    (w : Text) (r : Registry) → SingleMode r → SingleMode (without_work w r)
unfolding without_work
without_work-SingleMode w [] s = tt
without_work-SingleMode w ((j, q) ∷ r) s = elim (Bool-cases (eq_text j.work_id w)) [
  | inl e ↦ rw e (without_work-SingleMode w r s.1)
  | inr e ↦ rw e (without_work-All (λ x. SameMode q x.1) w r s.0, without_work-SingleMode w r s.1)
]

module _ (f : Preview → Preview)
    (same : (p : Preview) → (agent_key (f p) ≡ agent_key p) × ((f p).global ≡ p.global)) where
  update_all-SameMode :
      (p : Preview) (r : Registry)
      → All (λ e. SameMode p e.1) r
      → All (λ e. SameMode (f p) e.1) (update_all f r)
  unfolding update_all
  update_all-SameMode p [] h = tt
  update_all-SameMode p ((j, q) ∷ r) h =
      (rw ((same p).0, (same p).1, (same q).0, (same q).1) h.0, update_all-SameMode p r h.1)

  pub update_all-SingleMode : (r : Registry) → SingleMode r → SingleMode (update_all f r)
  unfolding update_all
  update_all-SingleMode [] s = tt
  update_all-SingleMode ((j, p) ∷ r) s = (update_all-SameMode p r s.0, update_all-SingleMode r s.1)
