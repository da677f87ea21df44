-- ===== src/Expiry.antt =====
-- expiry.go: the teardown of a work id past its deadline, and its confirmation. The client of the
-- cluster and the traffic-manager are parameters; log lines are left out, and the clock is read once.
pub mod Confirmed
pub mod Orphans
pub mod Sweep
use agentic_preview.Common.{
  ℕ, zero, suc, ◌+◌, Bool, true, false, List, [], ◌∷◌, ◌++◌, Option, none, some,
}
use agentic_preview.Common.Result.{Result, ok, err}
use agentic_preview.Common.Sort.{sort_texts}
use agentic_preview.Text.{Text, codes}
use agentic_preview.Preview.{Preview}
use agentic_preview.Registry.{Registry, namespaces_of, touch, remove_work}
use agentic_preview.Session.{Sessions}
use agentic_preview.Session.Manager.{Manager}
use agentic_preview.Session.Teardown.{remove}
use agentic_preview.Workload.{
  Kind, deployments, services, kind_plural, Object, Cluster, Dropped, object_ref, both,
  owner_selector, drop_workload,
}

-- The part of `config` that the expiry reads; `polls` is how often `confirmGone` looks again before
-- its deadline.
pub record ReapConfig : Type 0 where
  pub allowed_namespaces : List Text
  pub lifetime : ℕ
  pub reap_recheck : ℕ
  pub polls : ℕ

-- What is still there, and what could not be checked.
abbrev pub still_there : Kind → Text → List Object → List Text
still_there k ns [] = []
still_there k ns (o ∷ os) = object_ref k ns o.name ∷ still_there k ns os

unfoldable pub checked_kind : Kind → Text → Result Text (List Object) → Dropped
checked_kind k ns (err e) = (
  [],
  (codes "confirming preview "
        ++ (kind_plural k ++ (codes " are gone from " ++ (ns ++ (codes ": " ++ e)))))
      ∷ [],
)
checked_kind k ns (ok os) = (still_there k ns os, [])

abbrev pub is_gone : Dropped → Bool
is_gone ([], []) = true
is_gone ([], p ∷ ps) = false
is_gone (x ∷ xs, ps) = false

abbrev pub sorted : Dropped → Dropped
sorted (xs, ps) = (sort_texts xs, sort_texts ps)

abbrev pub concluded : Bool → Dropped → Dropped
concluded true found = ([], [])
concluded false found = sorted found

module _ {W : Type 0} (c : Cluster W) where
  -- One pass over the namespaces.
  unfoldable pub poll : Text → List Text → W → Dropped × W
  unfolding checked_kind
  poll selector [] w = (([], []), w)
  poll selector (ns ∷ nss) w =
      let (ds, w1) = c.list_objects deployments ns selector w in
      let (ss, w2) = c.list_objects services ns selector w1 in
      let (rest, w3) = poll selector nss w2 in
      (both (checked_kind deployments ns ds) (both (checked_kind services ns ss) rest), w3)

  -- The loop of `confirmGone`, with so many polls left behind this one.
  unfoldable pub confirm_from : ℕ → Text → List Text → W → Dropped × W
  unfolding poll sort_texts
  confirm_from zero selector nss w =
      let (found, w1) = poll selector nss w in (concluded (is_gone found) found, w1)
  confirm_from (suc n) selector nss w =
      let (found, w1) = poll selector nss w in
      elim (is_gone found) [ true ↦ (([], []), w1) | false ↦ confirm_from n selector nss w1 ]

-- `confirmGone`
unfoldable pub confirm_gone :
    {W : Type 0} → Option (Cluster W) → ℕ → Text → Text → List Text → W → Dropped × W
unfolding confirm_from owner_selector
confirm_gone none polls work_id workload nss w = (([], []), w)
confirm_gone (some c) polls work_id workload [] w = (([], []), w)
confirm_gone (some c) polls work_id workload (ns ∷ nss) w =
    confirm_from c polls (owner_selector work_id workload) (ns ∷ nss) w

module _ {W : Type 0} (m : Manager W) where
  unfoldable pub remove_intercepts : Sessions → Registry → List Preview → W → W
  unfolding remove
  remove_intercepts sessions r [] w = w
  remove_intercepts sessions r (p ∷ ps) w =
      remove_intercepts sessions r ps (remove m sessions r p w).1

  -- The part of `expireWork` behind the confirmation.
  unfoldable pub expire_checked :
      ReapConfig → Sessions → ℕ → Registry → Text → Bool → W → Registry × W
  unfolding touch remove_work remove_intercepts
  expire_checked cfg sessions now r work_id false w = (touch r work_id (now + cfg.reap_recheck), w)
  expire_checked cfg sessions now r work_id true w =
      let (r1, ps) = remove_work r work_id in (r1, remove_intercepts sessions r1 ps w)

  -- `expireWork`
  unfoldable pub expire_work :
      Option (Cluster W) → ReapConfig → Sessions → ℕ → Text → Registry → W → Registry × W
  unfolding namespaces_of drop_workload confirm_gone expire_checked
  expire_work c cfg sessions now work_id r w =
      let nss = namespaces_of r work_id in
      let (dropped, w1) = drop_workload c cfg.allowed_namespaces work_id [] w in
      let (found, w2) = confirm_gone c cfg.polls work_id [] nss w1 in
      expire_checked cfg sessions now r work_id (is_gone found) w2

  unfoldable pub expire_each :
      Option (Cluster W) → ReapConfig → Sessions → ℕ → List Text → Registry → W → Registry × W
  unfolding expire_work
  expire_each c cfg sessions now [] r w = (r, w)
  expire_each c cfg sessions now (id ∷ ids) r w =
      let (r1, w1) = expire_work c cfg sessions now id r w in
      expire_each c cfg sessions now ids r1 w1
