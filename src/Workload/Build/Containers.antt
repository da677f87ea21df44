-- ===== src/Workload/Build/Containers.antt =====
-- workload.go: containers found, dropped, swapped and picked by their name.
use agentic_preview.Common.{
  ◌≡◌, ◌≢◌, refl, sym, inl, inr, List, [], ◌∷◌, Option, none, some, All, eq_text, eq_text_iff,
  eq_text_refl, text_key, arith, Bool-cases, false,
}
use mathlib.Core.Path.{subst}
use agentic_preview.Common.Result.{Result, ok}
use agentic_preview.Text.{Text}
use agentic_preview.Workload.Build.{
  Container, CreateError, drop_container, find_container, named_container, only_container,
  pick_container, swapped, swap_in, container_names,
}

module _ {X : Type 0} where
  pub drop_container-free :
      (cs : List (Container X)) (name : Text) → All (λ c. c.name ≢ name) (drop_container cs name)
  unfolding drop_container
  drop_container-free [] name = tt
  drop_container-free (c ∷ cs) name = elim (Bool-cases (eq_text c.name name)) [
    | inl e ↦ simp e (drop_container-free cs name)
    | inr e ↦ simp e ((λ q. ground (arith, eq_text_iff c.name name)), drop_container-free cs name)
  ]

  -- The names of the containers are what they were.
  pub swap_in-All :
      (P : Text → Type 0) (name image : Text) (cs : List (Container X))
      → All (λ c. P c.name) cs
      → All (λ c. P c.name) (swap_in name image cs)
  unfolding swap_in
  swap_in-All P name image [] h = tt
  swap_in-All P name image (c ∷ cs) h = elim (Bool-cases (eq_text c.name name)) [
    | inl e ↦ simp e h
    | inr e ↦ simp e (h.0, swap_in-All P name image cs h.1)
  ]

  find_container-named :
      (name : Text) (cs : List (Container X)) (c : Container X)
      → find_container name cs ≡ some c
      → c.name ≡ name
  unfolding find_container
  find_container-named name [] c h = absurd (ground arith)
  find_container-named name (d ∷ cs) c h = elim (Bool-cases (eq_text d.name name)) [
    | inl e ↦ let same : d ≡ c = taken (rw e at h) in rw (sym same) ((eq_text_iff d.name name).0 e)
    | inr e ↦ find_container-named name cs c (rw e at h)
  ]
    where
      taken : some d ≡ some c → d ≡ c
      taken q = cc

  pub find_container-swap_in_other :
      (name image n : Text) (cs : List (Container X))
      → n ≢ name
      → find_container n (swap_in name image cs) ≡ find_container n cs
  unfolding find_container swap_in
  find_container-swap_in_other name image n [] h = refl
  find_container-swap_in_other name image n (d ∷ cs) h = elim (Bool-cases (eq_text d.name name)) [
    | inl e ↦
        let o : eq_text d.name n ≡ false =
          ground (arith, eq_text_iff d.name name, eq_text_iff d.name n) in
        simp (e, o) refl
    | inr e ↦ simp e (rw (find_container-swap_in_other name image n cs h) refl)
  ]

  pub find_container-drop_container :
      (n name : Text) (cs : List (Container X))
      → n ≢ name
      → find_container n (drop_container cs name) ≡ find_container n cs
  unfolding find_container drop_container
  find_container-drop_container n name [] h = refl
  find_container-drop_container n name (d ∷ cs) h = elim (Bool-cases (eq_text d.name name)) [
    | inl e ↦
        let o : eq_text d.name n ≡ false =
          ground (arith, eq_text_iff d.name name, eq_text_iff d.name n) in
        simp (e, o) (find_container-drop_container n name cs h)
    | inr e ↦ simp e (rw (find_container-drop_container n name cs h) refl)
  ]

  pub container_names-swap_in :
      (name image : Text) (cs : List (Container X))
      → container_names (swap_in name image cs) ≡ container_names cs
  unfolding container_names swap_in
  container_names-swap_in name image [] = refl
  container_names-swap_in name image (d ∷ cs) = elim (Bool-cases (eq_text d.name name)) [
    | inl e ↦ simp e refl
    | inr e ↦ simp e (rw (container_names-swap_in name image cs) refl)
  ]

  pub find_container-swap_in :
      (name image : Text) (cs : List (Container X)) (c : Container X)
      → find_container name cs ≡ some c
      → find_container name (swap_in name image cs) ≡ some (swapped image c)
  unfolding find_container swap_in
  find_container-swap_in name image [] c h = absurd (ground arith)
  find_container-swap_in name image (d ∷ cs) c h = elim (Bool-cases (eq_text d.name name)) [
    | inl e ↦ let same : d ≡ c = taken (rw e at h) in simp e (rw same refl)
    | inr e ↦ simp e (find_container-swap_in name image cs c (rw e at h))
  ]
    where
      taken : some d ≡ some c → d ≡ c
      taken q = cc

  ok_same : (d c : Container X) → Path (Result CreateError (Container X)) (ok d) (ok c) → d ≡ c
  ok_same d c q = cc

  named_container-found :
      (deployment override : Text) (all cs : List (Container X)) (f : Option (Container X))
      (c : Container X)
      → find_container override cs ≡ f
      → named_container deployment override all f ≡ ok c
      → find_container c.name cs ≡ some c
  named_container-found deployment override all cs none c e q = absurd (ground arith)
  named_container-found deployment override all cs (some d) c e q =
      let own = find_container-named override cs d e in
      rw (sym (ok_same d c q)) (subst (λ n. find_container n cs ≡ some d) (sym own) e)

  only_container-found :
      (deployment : Text) (cs : List (Container X)) (f : Option (Container X)) (c : Container X)
      → find_container deployment cs ≡ f
      → only_container deployment cs f ≡ ok c
      → find_container c.name cs ≡ some c
  unfolding find_container
  only_container-found deployment cs (some d) c e q =
      let own = find_container-named deployment cs d e in
      rw (sym (ok_same d c q)) (subst (λ n. find_container n cs ≡ some d) (sym own) e)
  only_container-found deployment [] none c e q = absurd (ground arith)
  only_container-found deployment (a ∷ []) none c e q =
      rw (sym (ok_same a c q)) (rw (eq_text_refl a.name) refl)
  only_container-found deployment (a ∷ b ∷ cs) none c e q = absurd (ground arith)

  pub pick_container-found :
      (cs : List (Container X)) (deployment override : Text) (c : Container X)
      → pick_container cs deployment override ≡ ok c
      → find_container c.name cs ≡ some c
  unfolding pick_container
  pick_container-found [] deployment override c h = absurd (ground arith)
  pick_container-found (a ∷ cs) deployment [] c h =
      only_container-found deployment (a ∷ cs) _ c refl h
  pick_container-found (a ∷ cs) deployment (o ∷ override) c h =
      named_container-found deployment (o ∷ override) (a ∷ cs) (a ∷ cs) _ c refl h
