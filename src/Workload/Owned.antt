-- ===== src/Workload/Owned.antt =====
-- workload.go: the removal of a work id's objects touches nothing else.
use agentic_preview.Common.{◌≡◌, refl, Bool, true, false, List, [], ◌∷◌, some, In, inl, inr}
use agentic_preview.Common.Result.{Result, ok, err}
use agentic_preview.Text.{Text}
use agentic_preview.Workload.{
  Kind, deployments, services, Object, Cluster, owned_by_us, owner_selector, drop_owned,
  drop_objects, drop_listed, drop_kind, drop_each, drop_workload,
}

-- An object that some listing of the namespace by the selector answered, with the label of this service.
pub record Listed {W : Type 0} (c : Cluster W) (k : Kind) (ns selector name : Text) : Type 0 where
  pub before : W
  pub answer : List Object
  pub object : Object
  pub answered : (c.list_objects k ns selector before).0 ≡ ok answer
  pub among : In object answer
  pub owned : owned_by_us object.labels ≡ true
  pub named : object.name ≡ name

module _ {W : Type 0} (c : Cluster W) (P : W → Type 0) (selector : Text) (allowed : List Text)
    (read : (k : Kind) (ns : Text) (w : W) → P w → P (c.list_objects k ns selector w).1)
    (removed : (k : Kind) (ns name : Text) (w : W)
      → In ns allowed
      → Listed c k ns selector name
      → P w
      → P (c.delete_object k ns name w).1) where
  drop_owned-keeps :
      (k : Kind) (ns name : Text) (b : Bool) (w : W)
      → In ns allowed
      → (b ≡ true → Listed c k ns selector name)
      → P w
      → P (drop_owned c k ns name b w).1
  unfolding drop_owned
  drop_owned-keeps k ns name false w i l h = h
  drop_owned-keeps k ns name true w i l h = removed k ns name w i (l refl) h

  drop_objects-keeps :
      (k : Kind) (ns : Text) (os : List Object) (w : W)
      → In ns allowed
      → ((o : Object) → In o os → owned_by_us o.labels ≡ true → Listed c k ns selector o.name)
      → P w
      → P (drop_objects c k ns os w).1
  unfolding drop_objects
  drop_objects-keeps k ns [] w i l h = h
  drop_objects-keeps k ns (o ∷ os) w i l h =
      drop_objects-keeps k ns os _ i (λ x j. l x (inr j))
        (drop_owned-keeps k ns o.name (owned_by_us o.labels) w i (l o (inl refl)) h)

  drop_kind-keeps :
      (k : Kind) (ns : Text) (w : W) → In ns allowed → P w → P (drop_kind c k ns selector w).1
  unfolding drop_kind
  drop_kind-keeps k ns w i h = listed (c.list_objects k ns selector w).0 refl
    where
      listed :
          (a : Result Text (List Object))
          → (c.list_objects k ns selector w).0 ≡ a
          → P (drop_listed c k ns a (c.list_objects k ns selector w).1).1
      listed (err e) q = unfold drop_listed in (read k ns w h)
      listed (ok os) q =
          unfold drop_listed in
          drop_objects-keeps k ns os _ i
            (λ o j b. record {
              before = w;
              answer = os;
              object = o;
              answered = q;
              among = j;
              owned = b;
              named = refl;
            })
            (read k ns w h)

  drop_each-keeps :
      (nss : List Text) (w : W)
      → ((ns : Text) → In ns nss → In ns allowed)
      → P w
      → P (drop_each c nss selector w).1
  unfolding drop_each
  drop_each-keeps [] w i h = h
  drop_each-keeps (ns ∷ nss) w i h =
      drop_each-keeps nss _ (λ n j. i n (inr j))
        (drop_kind-keeps services ns _ (i ns (inl refl))
          (drop_kind-keeps deployments ns w (i ns (inl refl)) h))

-- Whatever holds of the world outside, and is kept by the listings by the work id's owner selector and
-- by the deletion of every object that such a listing of an allowed namespace answered with this
-- service's own label, is kept by dropWorkload: it deletes nothing else.
pub drop_workload_owned :
    {W : Type 0} (c : Cluster W) (P : W → Type 0) (allowed : List Text) (work_id workload : Text)
    → ((k : Kind) (ns : Text) (w : W)
        → P w
        → P (c.list_objects k ns (owner_selector work_id workload) w).1)
    → ((k : Kind) (ns name : Text) (w : W)
        → In ns allowed
        → Listed c k ns (owner_selector work_id workload) name
        → P w
        → P (c.delete_object k ns name w).1)
    → (w : W) → P w
    → P (drop_workload (some c) allowed work_id workload w).1
unfolding drop_workload
drop_workload_owned c P allowed work_id workload read removed w h =
    drop_each-keeps c P (owner_selector work_id workload) allowed read removed allowed w (λ n j. j)
      h
