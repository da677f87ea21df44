-- ===== src/Expiry/Orphans.antt =====
-- expiry.go: the sweep of the preview objects that the registry does not know.
use agentic_preview.Common.{
  ℕ, ◌+◌, ◌-◌, Bool, true, false, not, ◌&&◌, ◌||◌, List, [], ◌∷◌, ◌++◌, Option, none, some, is_some,
  ltb, ◌==◌, if◌then◌else◌, KeyEq, ◌≡◌, ◌↔◌, arith, eq_text, eq_text_iff, text_key,
}
use agentic_preview.Common.Assoc.{Assoc, get, put, delete}
use agentic_preview.Common.Result.{Result, ok, err}
use agentic_preview.Common.Sort.{sort, text_ltb}
use agentic_preview.Text.{Text, codes}
use agentic_preview.Preview.{ServiceKey, service_key}
use agentic_preview.Registry.{Registry}
use agentic_preview.Workload.{
  Kind, deployments, services, kind_plural, LabelMap, label, Object, Cluster, managed_by_label,
  managed_by_value, work_id_label, workload_label, drop_workload,
}
use agentic_preview.Expiry.{ReapConfig, is_gone, confirm_gone}

-- `orphanKey`
pub record OrphanKey : Type 0 where
  pub namespace : Text
  pub work_id : Text
  pub workload : Text

abbrev pub same_orphan : OrphanKey → OrphanKey → Bool
same_orphan a b =
    eq_text a.namespace b.namespace
    && (eq_text a.work_id b.work_id && eq_text a.workload b.workload)

pub same_orphan_iff : (a b : OrphanKey) → (same_orphan a b ≡ true) ↔ (a ≡ b)
same_orphan_iff a b = ground (
  arith,
  eq_text_iff a.namespace b.namespace,
  eq_text_iff a.work_id b.work_id,
  eq_text_iff a.workload b.workload,
)

instance abbrev pub orphan_key : KeyEq OrphanKey
orphan_key = record { same = same_orphan; same_iff = same_orphan_iff }

-- `orphanKey.String`
abbrev pub orphan_string : OrphanKey → Text
orphan_string k =
    k.workload ++ (codes "." ++ (k.namespace ++ (codes " (work id " ++ (k.work_id ++ codes ")"))))

-- The key of the registry that the same triple makes.
abbrev pub service_of : OrphanKey → ServiceKey
service_of k = record { work_id = k.work_id; namespace = k.namespace; workload = k.workload }

abbrev pub Found : Type 0
Found = Assoc OrphanKey ℕ

abbrev pub older : OrphanKey → ℕ → Option ℕ → Found → Found
older k created none found = put k created found
older k created (some at) found = if ltb created at then put k created found else found

-- `note`; an object without a work id or a workload is not named
unfoldable pub note_named : Found → Text → ℕ → Text → Text → Found
unfolding get put
note_named found ns created [] workload = found
note_named found ns created (c ∷ id) [] = found
note_named found ns created (c ∷ id) (d ∷ name) =
    let k : OrphanKey = record { namespace = ns; work_id = c ∷ id; workload = d ∷ name } in
    older k created (get k found) found

unfoldable pub note : Found → Text → LabelMap → ℕ → Found
unfolding note_named label
note found ns labels created =
    note_named found ns created (label labels work_id_label) (label labels workload_label)

unfoldable pub note_all : Found → Text → List Object → Found
unfolding note
note_all found ns [] = found
note_all found ns (o ∷ os) = note_all (note found ns o.labels o.created) ns os

-- The fields of `Server` that the sweep keeps from one pass to the next.
pub record OrphanMemory : Type 0 where
  pub seen : List OrphanKey
  pub next_try : Assoc OrphanKey ℕ
  pub quiet : Assoc Text ℕ

abbrev pub is_before : ℕ → Option ℕ → Bool
is_before now none = false
is_before now (some next) = ltb now next

-- `orphanListProblem`
unfoldable pub orphan_list_problem : ReapConfig → Text → Kind → ℕ → Assoc Text ℕ → Assoc Text ℕ
unfolding get put
orphan_list_problem cfg ns kind now quiet =
    let k = ns ++ (codes "/" ++ kind_plural kind) in
    if is_before now (get k quiet) then quiet else put k (now + cfg.reap_recheck) quiet

unfoldable pub found_in :
    ReapConfig
    → Text
    → Kind
    → ℕ
    → Result Text (List Object)
    → Found × Assoc Text ℕ
    → Found × Assoc Text ℕ
unfolding note_all orphan_list_problem
found_in cfg ns kind now (err e) (found, quiet) = (found, orphan_list_problem cfg ns kind now quiet)
found_in cfg ns kind now (ok os) (found, quiet) = (note_all found ns os, quiet)

-- `keysInOrder`: the oldest first
unfoldable pub is_older : OrphanKey × ℕ → OrphanKey × ℕ → Bool
unfolding text_ltb
is_older (k, at) (j, bt) =
    if at == bt then text_ltb (orphan_string k) (orphan_string j) else ltb at bt

unfoldable pub keys_in_order : Found → Found
unfolding sort is_older
keys_in_order found = sort is_older found

abbrev pub budget : ℕ
budget = 5

-- Unknown to the registry and past the lifetime.
unfoldable pub is_orphan : ReapConfig → Registry → ℕ → OrphanKey → ℕ → Bool
unfolding get
is_orphan cfg r now k created =
    not (is_some (get (service_of k) r)) && not (created == 0 || ltb (now - created) cfg.lifetime)

unfoldable pub holds : OrphanKey → List OrphanKey → Bool
holds k [] = false
holds k (j ∷ js) = same_orphan k j || holds k js

-- What a pass over the orphans changes.
pub record Pass : Type 0 where
  pub spent : ℕ
  pub seen_now : List OrphanKey
  pub next_try : Assoc OrphanKey ℕ

-- Seen before, not waiting for another try, and within the budget.
unfoldable pub is_due : OrphanMemory → ℕ → Pass → OrphanKey → Bool
unfolding holds get
is_due mem now p k =
    holds k mem.seen && (not (is_before now (get k p.next_try)) && ltb p.spent budget)

unfoldable pub after_try : ReapConfig → ℕ → OrphanKey → Bool → Pass → Pass
unfolding put delete
after_try cfg now k true p = record p { spent = p.spent + 1; next_try = delete k p.next_try }
after_try cfg now k false p = record p {
  spent = p.spent + 1;
  next_try = put k (now + cfg.reap_recheck) p.next_try;
}

unfoldable pub only_seen : List OrphanKey → Assoc OrphanKey ℕ → Assoc OrphanKey ℕ
unfolding holds
only_seen seen [] = []
only_seen seen ((k, at) ∷ rest) =
    let later = only_seen seen rest in if holds k seen then (k, at) ∷ later else later

abbrev pub first_pass : OrphanMemory → Pass
first_pass mem = record { spent = 0; seen_now = []; next_try = mem.next_try }

module _ {W : Type 0} (c : Cluster W) (cfg : ReapConfig) (now : ℕ) where
  unfoldable pub gather : List Text → Found × Assoc Text ℕ → W → (Found × Assoc Text ℕ) × W
  unfolding found_in
  gather [] known w = (known, w)
  gather (ns ∷ nss) known w =
      let selector = managed_by_label ++ (codes "=" ++ managed_by_value) in
      let (ds, w1) = c.list_objects deployments ns selector w in
      let (ss, w2) = c.list_objects services ns selector w1 in
      gather nss (found_in cfg ns services now ss (found_in cfg ns deployments now ds known)) w2

  -- One orphan dropped and confirmed.
  unfoldable pub tear_down : OrphanKey → Pass → W → Pass × W
  unfolding drop_workload confirm_gone after_try
  tear_down k p w =
      let (dropped, w1) = drop_workload (some c) cfg.allowed_namespaces k.work_id k.workload w in
      let (left, w2) = confirm_gone (some c) cfg.polls k.work_id k.workload (k.namespace ∷ []) w1 in
      (after_try cfg now k (is_gone left) p, w2)

  unfoldable pub sweep_due : OrphanKey → Bool → Pass → W → Pass × W
  unfolding tear_down
  sweep_due k false p w = (p, w)
  sweep_due k true p w = tear_down k p w

  unfoldable pub sweep_key : OrphanMemory → OrphanKey → Bool → Pass → W → Pass × W
  unfolding is_due sweep_due
  sweep_key mem k false p w = (p, w)
  sweep_key mem k true p w =
      let p1 : Pass = record p { seen_now = k ∷ p.seen_now } in
      sweep_due k (is_due mem now p1 k) p1 w

  unfoldable pub sweep_each : Registry → OrphanMemory → Found → Pass → W → Pass × W
  unfolding is_orphan sweep_key
  sweep_each r mem [] p w = (p, w)
  sweep_each r mem ((k, created) ∷ ks) p w =
      let (p1, w1) = sweep_key mem k (is_orphan cfg r now k created) p w in
      sweep_each r mem ks p1 w1

  -- `sweepOrphans`
  unfoldable pub sweep_orphans : Registry → OrphanMemory → W → OrphanMemory × W
  unfolding gather keys_in_order sweep_each only_seen
  sweep_orphans r mem w =
      let ((found, quiet), w1) = gather cfg.allowed_namespaces ([], mem.quiet) w in
      let (p, w2) = sweep_each r mem (keys_in_order found) (first_pass mem) w1 in
      let next : OrphanMemory = record {
        seen = p.seen_now;
        next_try = only_seen p.seen_now p.next_try;
        quiet = quiet;
      } in
      (next, w2)
