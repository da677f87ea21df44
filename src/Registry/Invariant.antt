-- ===== src/Registry/Invariant.antt =====
-- What holds of the registry after any sequence of its operations.
use agentic_preview.Common.{
  ℕ, ◌≡◌, ◌≢◌, refl, sym, ◌∙◌, List, [], ◌∷◌, none, is_some, true, arith, All, ◌⊎◌, inl, inr,
  Bool-cases, if◌then◌else◌, eq_text, eq_text_iff,
}
use agentic_preview.Common.Assoc.{
  get, delete, Distinct, put-Distinct, delete-Distinct, put-All, delete-All, Pairs, put-Pairs,
  delete-Pairs,
}
use agentic_preview.Common.Result.{ok}
use agentic_preview.Text.{Text}
use agentic_preview.Preview.{ServiceKey, service_key, same_key, same_key_iff, Preview, key}
use agentic_preview.Registry.{
  Registry, name_taken, added, add, without_work, update_all, touched, touch, with_status,
  set_status, with_agent_pods, set_agent_pods,
}

abbrev pub Keyed : Registry → Type 0
Keyed = All (λ e. e.0 ≡ key e.1)

-- Two previews with names of their own.
abbrev pub OtherName : Preview → Preview → Type 0
OtherName p q = q.name ≢ p.name

-- Each service of each work id is there once, under its own key, and no two share the name of an
-- intercept.
pub record IsRegistry (r : Registry) : Type 0 where
  pub distinct : Distinct r
  pub keyed : Keyed r
  pub names : Pairs OtherName r

-- The name belongs to the key or to nobody.
abbrev NameFor : Text → ServiceKey → Registry → Type 0
NameFor n k = All (λ e. (e.0 ≡ k) ⊎ (e.1.name ≢ n))

name_taken-NameFor : (p : Preview) (r : Registry) → name_taken p r ≡ none → NameFor p.name (key p) r
unfolding name_taken
name_taken-NameFor p [] h = tt
name_taken-NameFor p ((k, ex) ∷ r) h = elim (Bool-cases (eq_text ex.name p.name)) [
  | inr e ↦
      (inr (λ q. ground (arith, eq_text_iff ex.name p.name)), name_taken-NameFor p r (rw e at h))
  | inl e ↦ elim (Bool-cases (same_key k (key p))) [
    | inl s ↦ (inl ((same_key_iff k (key p)).0 s), name_taken-NameFor p r (rw (e, s) at h))
    | inr s ↦ absurd (ground arith)
  ]
]

-- `add` succeeds exactly where the name is free for the key.
pub add-eq-ok :
    (r : Registry) (p : Preview) (now : ℕ) {r' : Registry}
    → add r p now ≡ ok r'
    → (name_taken p r ≡ none) × (added r p now ≡ r')
unfolding add
add-eq-ok r p now h = ground arith

pub add_free :
    (r : Registry) (p : Preview) (now : ℕ)
    → name_taken p r ≡ none
    → add r p now ≡ ok (added r p now)
unfolding add
add_free r p now h = rw (h, add) refl

pub added-IsRegistry :
    (r : Registry) (p : Preview) (now : ℕ)
    → IsRegistry r
    → name_taken p r ≡ none
    → IsRegistry (added r p now)
unfolding added
added-IsRegistry r p now v f = record {
  distinct = put-Distinct (key p) _ r v.distinct;
  keyed = put-All (λ e. e.0 ≡ key e.1) (key p) _ r refl v.keyed;
  names =
      put-Pairs OtherName (λ _ _ n e. n (sym e)) (key p) _ r v.distinct v.names
        (name_taken-NameFor p r f);
}

-- A successful `add` keeps the registry well formed.
pub add-IsRegistry :
    (r : Registry) (p : Preview) (now : ℕ) {r' : Registry}
    → IsRegistry r
    → add r p now ≡ ok r'
    → IsRegistry r'
add-IsRegistry r p now v h =
    let (f, e) = add-eq-ok r p now h in rw (sym e) (added-IsRegistry r p now v f)

-- Updates that leave the key and the name of each preview alone.
module _ (f : Preview → Preview)
    (same : (p : Preview) → (key (f p) ≡ key p) × ((f p).name ≡ p.name)) where
  get-update_all-none :
      (k : ServiceKey) (r : Registry) → get k r ≡ none → get k (update_all f r) ≡ none
  unfolding get update_all
  get-update_all-none k [] h = refl
  get-update_all-none k ((j, p) ∷ r) h = ground (arith, get-update_all-none k r)

  pub get-update_all-is_some :
      (k : ServiceKey) (r : Registry)
      → is_some (get k r) ≡ true
      → is_some (get k (update_all f r)) ≡ true
  unfolding get update_all
  get-update_all-is_some k [] h = h
  get-update_all-is_some k ((j, p) ∷ r) h = ground (arith, get-update_all-is_some k r)

  update_all-NameFree :
      (n : Text) (r : Registry)
      → All (λ e. e.1.name ≢ n) r
      → All (λ e. e.1.name ≢ n) (update_all f r)
  unfolding update_all
  update_all-NameFree n [] h = tt
  update_all-NameFree n ((j, p) ∷ r) h = (rw (same p).1 h.0, update_all-NameFree n r h.1)

  pub update_all-IsRegistry : (r : Registry) → IsRegistry r → IsRegistry (update_all f r)
  unfolding update_all
  update_all-IsRegistry [] v = v
  update_all-IsRegistry ((j, p) ∷ r) v =
      let ih =
        update_all-IsRegistry r
          (record { distinct = v.distinct.1; keyed = v.keyed.1; names = v.names.1 }) in
      record {
        distinct = (get-update_all-none j r v.distinct.0, ih.distinct);
        keyed = (v.keyed.0 ∙ sym (same p).0, ih.keyed);
        names = (rw (same p).1 (update_all-NameFree p.name r v.names.0), ih.names);
      }

pub touch-IsRegistry :
    (r : Registry) (w : Text) (until : ℕ) → IsRegistry r → IsRegistry (touch r w until)
unfolding touch
touch-IsRegistry r w until v = update_all-IsRegistry (touched w until) same r v
  where
    same : (p : Preview) → (key (touched w until p) ≡ key p) × ((touched w until p).name ≡ p.name)
    same p = unfold touched in (ground arith)

pub set_status-IsRegistry :
    (r : Registry) (n d m : Text) → IsRegistry r → IsRegistry (set_status r n d m)
unfolding set_status
set_status-IsRegistry r n d m v = update_all-IsRegistry (with_status n d m) same r v
  where
    same :
        (p : Preview) → (key (with_status n d m p) ≡ key p) × ((with_status n d m p).name ≡ p.name)
    same p = unfold with_status in (ground arith)

pub set_agent_pods-IsRegistry :
    (r : Registry) (a : Text) (pods : List Text) (n : ℕ)
    → IsRegistry r
    → IsRegistry (set_agent_pods r a pods n)
unfolding set_agent_pods
set_agent_pods-IsRegistry r a pods n v = update_all-IsRegistry (with_agent_pods a pods n) same r v
  where
    same :
        (p : Preview)
        → (key (with_agent_pods a pods n p) ≡ key p) × ((with_agent_pods a pods n p).name ≡ p.name)
    same p = unfold with_agent_pods in (ground arith)

pub delete-IsRegistry : (r : Registry) (k : ServiceKey) → IsRegistry r → IsRegistry (delete k r)
delete-IsRegistry r k v = record {
  distinct = delete-Distinct k r v.distinct;
  keyed = delete-All (λ e. e.0 ≡ key e.1) k r v.keyed;
  names = delete-Pairs OtherName k r v.names;
}

pub without_work-All :
    (P : ServiceKey × Preview → Type 0) (w : Text) (r : Registry)
    → All P r
    → All P (without_work w r)
unfolding without_work
without_work-All P w [] h = tt
without_work-All P w ((j, q) ∷ r) h = elim (Bool-cases (eq_text j.work_id w)) [
  | inl s ↦ rw s (without_work-All P w r h.1)
  | inr s ↦ rw s (h.0, without_work-All P w r h.1)
]

pub get-without_work :
    (w : Text) (k : ServiceKey) (r : Registry)
    → get k (without_work w r) ≡ (if eq_text k.work_id w then none else get k r)
unfolding get without_work
get-without_work w k [] = ground arith
get-without_work w k ((j, q) ∷ r) = ground (
  arith,
  get-without_work w k r,
  same_key_iff j k,
  eq_text_iff j.work_id w,
  eq_text_iff k.work_id w,
)

pub without_work-IsRegistry :
    (w : Text) (r : Registry) → IsRegistry r → IsRegistry (without_work w r)
unfolding without_work
without_work-IsRegistry w [] v = v
without_work-IsRegistry w ((j, q) ∷ r) v =
    let ih =
      without_work-IsRegistry w r
        (record { distinct = v.distinct.1; keyed = v.keyed.1; names = v.names.1 }) in
    elim (Bool-cases (eq_text j.work_id w)) [
      | inl s ↦ rw s ih
      | inr s ↦ rw s record {
        distinct = (get-without_work w j r ∙ rw s v.distinct.0, ih.distinct);
        keyed = (v.keyed.0, ih.keyed);
        names = (without_work-All (λ e. e.1.name ≢ q.name) w r v.names.0, ih.names);
      }
    ]
