-- ===== src/Expiry/Confirmed.antt =====
-- expiry.go: the header route of a preview is dropped only once its objects are seen to be gone.
use agentic_preview.Common.{
  ℕ, zero, suc, ◌+◌, ◌≡◌, ◌⊎◌, ◌∙◌, refl, inl, inr, sym, Bool, true, false, List, [], ◌∷◌, some, In,
  All, arith, Bool-cases,
}
use agentic_preview.Common.Result.{Result, ok, err}
use agentic_preview.Common.Sort.{sort, sort_texts, insert_sorted, text_ltb}
use agentic_preview.Text.{Text}
use agentic_preview.Registry.{Registry, namespaces_of, touch, remove_work}
use agentic_preview.Session.{Sessions}
use agentic_preview.Session.Manager.{Manager}
use agentic_preview.Workload.{
  Kind, deployments, services, Object, Cluster, Dropped, both, owner_selector, drop_workload,
}
use agentic_preview.Workload.Owned.{Listed, drop_workload_owned}
use agentic_preview.Expiry.{
  ReapConfig, checked_kind, is_gone, poll, confirm_from, confirm_gone, sorted, concluded,
  expire_checked, expire_work, remove_intercepts,
}

-- A listing of the kind by the selector, in a world of which `P` holds, answered that nothing is there.
abbrev pub Gone : {W : Type 0} → Cluster W → (W → Type 0) → Text → Kind → Text → Type 0
Gone {W} c P selector k ns = (w : W) × P w × ((c.list_objects k ns selector w).0 ≡ ok [])

abbrev pub AllGone : {W : Type 0} → Cluster W → (W → Type 0) → Text → List Text → Type 0
AllGone c P selector = All (λ ns. Gone c P selector deployments ns × Gone c P selector services ns)

both-gone : (a b : Dropped) → is_gone (both a b) ≡ true → (is_gone a ≡ true) × (is_gone b ≡ true)
both-gone ([], []) ([], []) h = (refl, refl)
both-gone ([], []) ([], p ∷ ps) h = absurd (ground arith)
both-gone ([], []) (x ∷ xs, ps) h = absurd (ground arith)
both-gone ([], p ∷ ps) ([], qs) h = absurd (ground arith)
both-gone ([], p ∷ ps) (x ∷ xs, qs) h = absurd (ground arith)
both-gone (x ∷ xs, ps) (ys, qs) h = absurd (ground arith)

checked_kind-gone :
    (k : Kind) (ns : Text) (a : Result Text (List Object))
    → is_gone (checked_kind k ns a) ≡ true
    → a ≡ ok []
unfolding checked_kind
checked_kind-gone k ns (err e) h = absurd (ground arith)
checked_kind-gone k ns (ok []) h = refl
checked_kind-gone k ns (ok (o ∷ os)) h = absurd (ground arith)

insert_sorted-kept : (x : Text) (ys : List Text) → is_gone ([], insert_sorted text_ltb x ys) ≡ false
unfolding insert_sorted
insert_sorted-kept x [] = refl
insert_sorted-kept x (y ∷ ys) = ground arith

insert_sorted-found :
    (x : Text) (ys ps : List Text) → is_gone (insert_sorted text_ltb x ys, ps) ≡ false
unfolding insert_sorted
insert_sorted-found x [] ps = refl
insert_sorted-found x (y ∷ ys) ps = ground arith

is_gone-sorted : (d : Dropped) → is_gone (sorted d) ≡ is_gone d
unfolding sort_texts sort
is_gone-sorted ([], []) = refl
is_gone-sorted ([], p ∷ ps) = insert_sorted-kept p (sort_texts ps)
is_gone-sorted (x ∷ xs, ps) = insert_sorted-found x (sort_texts xs) (sort_texts ps)

concluded-gone :
    (d : Dropped) (b : Bool) → is_gone d ≡ b → is_gone (concluded b d) ≡ true → is_gone d ≡ true
concluded-gone d true e h = e
concluded-gone d false e h = sym (is_gone-sorted d) ∙ h

module _ {W : Type 0} (c : Cluster W) (selector : Text) (P : W → Type 0)
    (read : (k : Kind) (ns : Text) (w : W) → P w → P (c.list_objects k ns selector w).1) where
  poll-gone :
      (nss : List Text) (w : W)
      → P w
      → is_gone (poll c selector nss w).0 ≡ true
      → AllGone c P selector nss
  unfolding poll
  poll-gone [] w p h = tt
  poll-gone (ns ∷ nss) w p h =
      let ds = c.list_objects deployments ns selector w in
      let ss = c.list_objects services ns selector ds.1 in
      let (d, rest) = both-gone (checked_kind deployments ns ds.0) _ h in
      let (s, later) = both-gone (checked_kind services ns ss.0) _ rest in
      let p1 = read deployments ns w p in
      (
        (
          (w, p, checked_kind-gone deployments ns ds.0 d),
          (ds.1, p1, checked_kind-gone services ns ss.0 s),
        ),
        poll-gone nss ss.1 (read services ns ds.1 p1) later,
      )

  -- What is kept by listing is kept by looking whether everything is gone.
  poll-keeps : (nss : List Text) (w : W) → P w → P (poll c selector nss w).1
  unfolding poll
  poll-keeps [] w h = h
  poll-keeps (ns ∷ nss) w h = poll-keeps nss _ (read services ns _ (read deployments ns w h))

  confirm_from-gone :
      (n : ℕ) (nss : List Text) (w : W)
      → P w
      → is_gone (confirm_from c n selector nss w).0 ≡ true
      → AllGone c P selector nss
  unfolding confirm_from
  confirm_from-gone zero nss w p h =
      poll-gone nss w p (concluded-gone (poll c selector nss w).0 _ refl h)
  confirm_from-gone (suc n) nss w p h = elim (Bool-cases (is_gone (poll c selector nss w).0)) [
    | inl e ↦ poll-gone nss w p e
    | inr e ↦
        confirm_from-gone n nss (poll c selector nss w).1 (poll-keeps nss w p)
          (rw (e, is_gone, confirm_from) at h)
  ]

  confirm_from-keeps :
      (n : ℕ) (nss : List Text) (w : W) → P w → P (confirm_from c n selector nss w).1
  unfolding confirm_from
  confirm_from-keeps zero nss w h = poll-keeps nss w h
  confirm_from-keeps (suc n) nss w h = elim (Bool-cases (is_gone (poll c selector nss w).0)) [
    | inl e ↦ rw (e, confirm_from) (poll-keeps nss w h)
    | inr e ↦ rw (e, confirm_from) (confirm_from-keeps n nss _ (poll-keeps nss w h))
  ]

module _ {W : Type 0} (c : Cluster W) (P : W → Type 0) (work_id workload : Text)
    (read : (k : Kind) (ns : Text) (w : W)
      → P w
      → P (c.list_objects k ns (owner_selector work_id workload) w).1) where
  confirm_gone-gone :
      (n : ℕ) (nss : List Text) (w : W)
      → P w
      → is_gone (confirm_gone (some c) n work_id workload nss w).0 ≡ true
      → AllGone c P (owner_selector work_id workload) nss
  unfolding confirm_gone
  confirm_gone-gone n [] w p h = tt
  confirm_gone-gone n (ns ∷ nss) w p h =
      confirm_from-gone c (owner_selector work_id workload) P read n (ns ∷ nss) w p h

  pub confirm_gone-keeps :
      (n : ℕ) (nss : List Text) (w : W) → P w → P (confirm_gone (some c) n work_id workload nss w).1
  unfolding confirm_gone
  confirm_gone-keeps n [] w h = h
  confirm_gone-keeps n (ns ∷ nss) w h =
      confirm_from-keeps c (owner_selector work_id workload) P read n (ns ∷ nss) w h

-- With a client of the cluster, the expiry of a work id ends in one of two ways. Either a listing of
-- each kind, in every namespace in which the work id has an entry, answered that none of its objects
-- is there, in a world of which holds whatever the world before the expiry has that is kept by
-- listings and by the deletion of the listed objects with this service's label; then its entries are
-- gone, and the intercepts are removed in such a world too. Or the entries stay and are touched, to
-- the time of now and the pause before the next try, and such a world is what is left: no intercept
-- was removed.
pub expire_work_confirmed :
    {W : Type 0} (m : Manager W) (c : Cluster W) (P : W → Type 0) (cfg : ReapConfig)
    (sessions : Sessions) (now : ℕ) (work_id : Text) (r : Registry) (w : W)
    → ((k : Kind) (ns : Text) (w : W)
        → P w
        → P (c.list_objects k ns (owner_selector work_id []) w).1)
    → ((k : Kind) (ns name : Text) (w : W)
        → In ns cfg.allowed_namespaces
        → Listed c k ns (owner_selector work_id []) name
        → P w
        → P (c.delete_object k ns name w).1)
    → P w
    → (AllGone c P (owner_selector work_id []) (namespaces_of r work_id)
        × ((v : W) × P v
            × (expire_work m (some c) cfg sessions now work_id r w ≡ (
              (remove_work r work_id).0,
              remove_intercepts m sessions (remove_work r work_id).0 (remove_work r work_id).1 v,
            ))))
      ⊎ (((expire_work m (some c) cfg sessions now work_id r w).0
            ≡ touch r work_id (now + cfg.reap_recheck))
          × P (expire_work m (some c) cfg sessions now work_id r w).1)
unfolding expire_work expire_checked
expire_work_confirmed m c P cfg sessions now work_id r w read removed h =
    let nss = namespaces_of r work_id in
    let w1 = (drop_workload (some c) cfg.allowed_namespaces work_id [] w).1 in
    let found = confirm_gone (some c) cfg.polls work_id [] nss w1 in
    let h1 = drop_workload_owned c P cfg.allowed_namespaces work_id [] read removed w h in
    let h2 = confirm_gone-keeps c P work_id [] read cfg.polls nss w1 h1 in
    elim (Bool-cases (is_gone found.0)) [
      | inl e ↦
          rw e
            (inl (confirm_gone-gone c P work_id [] read cfg.polls nss w1 h1 e, (found.1, h2, refl)))
      | inr e ↦ rw e (inr (refl, h2))
    ]
