-- ===== src/Expiry/Sweep.antt =====
-- expiry.go: what a sweep takes down, and how much of it.
use agentic_preview.Common.{ℕ, ◌-◌, ◌≤◌, ◌≡◌, ◌≢◌, length, All, List, [], ◌∷◌, ◌++◌, none, In}
use agentic_preview.Common.Assoc.{Assoc, get}
use agentic_preview.Text.{Text, codes}
use agentic_preview.Preview.{service_key}
use agentic_preview.Registry.{Registry}
use agentic_preview.Workload.{Kind, Cluster, managed_by_label, managed_by_value, owner_selector}
use agentic_preview.Workload.Owned.{Listed}
use agentic_preview.Expiry.{ReapConfig}
use agentic_preview.Expiry.Orphans.{OrphanKey, orphan_key, service_of, OrphanMemory, Pass, budget}

-- Seen in the sweep before, unknown to the registry, and up for the whole lifetime.
pub record IsStray (cfg : ReapConfig) (r : Registry) (mem : OrphanMemory) (now : ℕ) (k : OrphanKey)
    (created : ℕ) : Type 0 where
  pub seen_before : In k mem.seen
  pub untracked : get (service_of k) r ≡ none
  pub dated : created ≢ 0
  pub aged : cfg.lifetime ≤ now - created

-- What a sweep may do, of the orphans of which a teardown has begun, the last one first: list this
-- service's objects, begin on a stray, list the objects of the work id and the workload of the last
-- one, and delete what such a listing of an allowed namespace answered with this service's label.
pub record Sweeps {W : Type 0} (c : Cluster W) (cfg : ReapConfig) (now : ℕ) (r : Registry)
    (mem : OrphanMemory) (P : List OrphanKey → W → Type 0) : Type 0 where
  pub reads_managed :
      (kind : Kind) (ns : Text) (w : W)
      → P [] w
      → P [] (c.list_objects kind ns (managed_by_label ++ (codes "=" ++ managed_by_value)) w).1
  pub begins :
      (k : OrphanKey) (created : ℕ) (ks : List OrphanKey) (w : W)
      → IsStray cfg r mem now k created
      → P ks w
      → P (k ∷ ks) w
  pub reads_owned :
      (k : OrphanKey) (ks : List OrphanKey) (kind : Kind) (ns : Text) (w : W)
      → P (k ∷ ks) w
      → P (k ∷ ks) (c.list_objects kind ns (owner_selector k.work_id k.workload) w).1
  pub deletes :
      (k : OrphanKey) (ks : List OrphanKey) (kind : Kind) (ns name : Text) (w : W)
      → In ns cfg.allowed_namespaces
      → Listed c kind ns (owner_selector k.work_id k.workload) name
      → P (k ∷ ks) w
      → P (k ∷ ks) (c.delete_object kind ns name w).1

module _ {W : Type 0} (c : Cluster W) (cfg : ReapConfig) (now : ℕ) (r : Registry)
    (mem : OrphanMemory) (P : List OrphanKey → W → Type 0) (may : Sweeps c cfg now r mem P) where
  -- The orphans of which a teardown has begun: as many as are counted, no more than the budget allows,
  -- and all of them strays.
  record Begun (t : Pass × W) : Type 0 where
    keys : List OrphanKey
    counted : length keys ≡ t.0.spent
    within : t.0.spent ≤ budget
    strays : All (λ k. (created : ℕ) × IsStray cfg r mem now k created) keys
    holds_of : P keys t.1
