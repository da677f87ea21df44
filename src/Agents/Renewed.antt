-- ===== src/Agents/Renewed.antt =====
-- agents.go: an agent pod that changed under its name.
use agentic_preview.Common.{
  ◌≡◌, ◌∙◌, refl, sym, ap, true, false, List, [], ◌∷◌, ◌++◌, none, some, In, inl, inr, Bool-cases,
  arith, eq_text, eq_text_iff, text_key,
}
use mathlib.Core.Path.{subst}
use agentic_preview.Common.Assoc.{Assoc, get, Distinct}
use agentic_preview.Common.Sort.{contains}
use agentic_preview.Text.{Text}
use agentic_preview.Agents.{AgentPod, AgentConn, AgentPool, agent_identity, identity, agent_key_of}
use agentic_preview.Agents.Plan.{
  Verdict, keep, drop, renew, judged, Plan, planned, judge_all, is_missing, missing_pods,
  to_establish,
}

judged-renew :
    (wanted : List Text) (latest : Assoc Text AgentPod) (k : Text) (ac : AgentConn) (ai : AgentPod)
    → contains ac.agent_key wanted ≡ true
    → get k latest ≡ some ai
    → eq_text (agent_identity ai) (identity ac) ≡ false
    → judged wanted latest k ac ≡ renew ai
unfolding judged
judged-renew wanted latest k ac ai c g e = simp (c, g, e) refl

-- What another tunnel adds to the plan.
planned-kept :
    (j k : Text) (bc : AgentConn) (v : Verdict) (p : Plan)
    → eq_text j k ≡ false
    → get k (planned j bc v p).kept ≡ get k p.kept
unfolding get
planned-kept j k bc keep p n = rw n refl
planned-kept j k bc drop p n = refl
planned-kept j k bc (renew ai) p n = refl

planned-dial :
    (x : Text × AgentPod) (j : Text) (bc : AgentConn) (v : Verdict) (p : Plan)
    → In x p.dial
    → In x (planned j bc v p).dial
planned-dial x j bc keep p i = i
planned-dial x j bc drop p i = i
planned-dial x j bc (renew ai) p i = inr i

module _ (wanted : List Text) (latest : Assoc Text AgentPod) (k : Text) where
  judge_all-none :
      (conns : Assoc Text AgentConn)
      → get k conns ≡ none
      → get k (judge_all wanted latest conns).kept ≡ none
  unfolding judge_all get
  judge_all-none [] h = refl
  judge_all-none ((j, bc) ∷ conns) h = elim (Bool-cases (eq_text j k)) [
    | inl e ↦ absurd (taken (rw e at h))
    | inr e ↦
        planned-kept j k bc (judged wanted latest j bc) (judge_all wanted latest conns) e
        ∙ judge_all-none conns (rw e at h)
  ]
    where
      taken : some bc ≡ none → ⊥
      taken q = absurd (ground arith)

  -- A tunnel that is to be renewed is not kept, and its pod is dialled.
  judge_all-renew :
      (conns : Assoc Text AgentConn) (ac : AgentConn) (ai : AgentPod)
      → Distinct conns
      → get k conns ≡ some ac
      → judged wanted latest k ac ≡ renew ai
      → (get k (judge_all wanted latest conns).kept ≡ none)
        × In (k, ai) (judge_all wanted latest conns).dial
  unfolding judge_all get
  judge_all-renew [] ac ai d h v = absurd (ground arith)
  judge_all-renew ((j, bc) ∷ conns) ac ai d h v = elim (Bool-cases (eq_text j k)) [
    | inl e ↦ here ((eq_text_iff j k).0 e) (same (rw e at h))
    | inr e ↦
        let (kept, dial) = judge_all-renew conns ac ai d.1 (rw e at h) v in
        (
          planned-kept j k bc (judged wanted latest j bc) (judge_all wanted latest conns) e ∙ kept,
          planned-dial (k, ai) j bc (judged wanted latest j bc) (judge_all wanted latest conns)
              dial,
        )
  ]
    where
      same : some bc ≡ some ac → bc ≡ ac
      same q = cc

      here :
          j ≡ k
          → bc ≡ ac
          → (get k (planned j bc (judged wanted latest j bc) (judge_all wanted latest conns)).kept
              ≡ none)
            × In
                (k, ai)
                (planned j bc (judged wanted latest j bc) (judge_all wanted latest conns)).dial
      here a b =
          let at : judged wanted latest j bc ≡ renew ai =
            subst (λ y. judged wanted latest y bc ≡ renew ai) (sym a)
              (subst (λ x. judged wanted latest k x ≡ renew ai) (sym b) v) in
          let free = subst (λ y. get y conns ≡ none) a d.0 in
          subst
            (λ w.
              (get k (planned j bc w (judge_all wanted latest conns)).kept ≡ none)
              × In (k, ai) (planned j bc w (judge_all wanted latest conns)).dial)
            (sym at) (judge_all-none conns free, inl (ap (λ y. (y, ai)) (sym a)))

  missing_pods-In :
      (kept : Assoc Text AgentConn) (establishing : List Text) (pods : Assoc Text AgentPod)
      (ai : AgentPod)
      → get k pods ≡ some ai
      → is_missing wanted kept establishing k ai ≡ true
      → In (k, ai) (missing_pods wanted kept establishing pods)
  unfolding missing_pods get
  missing_pods-In kept establishing [] ai h m = absurd (ground arith)
  missing_pods-In kept establishing ((j, bi) ∷ pods) ai h m = elim (Bool-cases (eq_text j k)) [
    | inl e ↦ here ((eq_text_iff j k).0 e) (same (rw e at h))
    | inr e ↦ later (missing_pods-In kept establishing pods ai (rw e at h) m)
  ]
    where
      same : some bi ≡ some ai → bi ≡ ai
      same q = cc

      later :
          In (k, ai) (missing_pods wanted kept establishing pods)
          → In (k, ai) (missing_pods wanted kept establishing ((j, bi) ∷ pods))
      later i = elim (Bool-cases (is_missing wanted kept establishing j bi)) [
        | inl e ↦ rw e (inr i)
        | inr e ↦ rw e i
      ]

      pair : j ≡ k → bi ≡ ai → Path (Text × AgentPod) (k, ai) (j, bi)
      pair a b = rw (a, b) refl

      here : j ≡ k → bi ≡ ai → In (k, ai) (missing_pods wanted kept establishing ((j, bi) ∷ pods))
      here a b =
          let at : is_missing wanted kept establishing j bi ≡ true =
            subst (λ y. is_missing wanted kept establishing y bi ≡ true) (sym a)
              (subst (λ x. is_missing wanted kept establishing k x ≡ true) (sym b) m) in
          rw at (inl (pair a b))

-- A pass over a pool with no key twice dials twice a wanted pod that is reported under the name of a
-- tunnel with another identity, where nothing is dialling it: once as renewed, and once as missing.
pub to_establish-renewed :
    (wanted : List Text) (p : AgentPool) (k : Text) (ac : AgentConn) (ai : AgentPod)
    → Distinct p.conns
    → get k p.conns ≡ some ac
    → get k p.latest ≡ some ai
    → contains ac.agent_key wanted ≡ true
    → contains (agent_key_of ai) wanted ≡ true
    → eq_text (agent_identity ai) (identity ac) ≡ false
    → contains k p.establishing ≡ false
    → (xs ys : Assoc Text AgentPod) × (to_establish wanted p ≡ xs ++ ys)
      × In (k, ai) xs
      × In (k, ai) ys
unfolding to_establish
to_establish-renewed wanted p k ac ai d g l c w e n =
    let plan = judge_all wanted p.latest p.conns in
    let v = judged-renew wanted p.latest k ac ai c l e in
    let (free, dial) = judge_all-renew wanted p.latest k p.conns ac ai d g v in
    (
      plan.dial,
      missing_pods wanted plan.kept p.establishing p.latest,
      refl,
      dial,
      missing_pods-In wanted p.latest k plan.kept p.establishing p.latest ai l (missing free),
    )
  where
    missing :
        get k (judge_all wanted p.latest p.conns).kept ≡ none
        → is_missing wanted (judge_all wanted p.latest p.conns).kept p.establishing k ai ≡ true
    missing f = unfold is_missing in (simp (w, f, n) refl)
