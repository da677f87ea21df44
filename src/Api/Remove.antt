-- ===== src/Api/Remove.antt =====
-- api.go and `tearDownWork` of workload.go: a work id or one of its services taken down.
use agentic_preview.Common.{Bool, true, false, List, [], ◌∷◌, ◌++◌, Option, none, some}
use agentic_preview.Common.Assoc.{get, delete}
use agentic_preview.Common.Result.{Result, ok, err}
use agentic_preview.Common.Sort.{contains}
use agentic_preview.Text.{Text, codes}
use agentic_preview.Preview.{ServiceKey, service_key, Preview, agent_key}
use agentic_preview.Registry.{Registry, remove_work}
use agentic_preview.Session.{Sessions}
use agentic_preview.Session.Manager.{Manager}
use agentic_preview.Session.Teardown.{remove}
use agentic_preview.Workload.{Cluster, Dropped, drop_workload}

-- The intercepts removed, the objects deleted and the problems.
pub record Removal : Type 0 where
  pub removed : List Text
  pub deleted : List Text
  pub problems : List Text

pub data RemoveReply : Type 0 where
  gone : Removal → RemoveReply
  not_removed : Text → RemoveReply
  nothing_live : RemoveReply

abbrev pub with_problem : Result Text (Unit {0}) → List Text → List Text
with_problem (ok done) ps = ps
with_problem (err e) ps = e ∷ ps

abbrev pub is_nothing : List Text → Bool
is_nothing [] = true
is_nothing (x ∷ xs) = false

abbrev pub refuse_scheduled : Text → Text
refuse_scheduled id =
    codes "\""
    ++ (id
        ++ codes
            "\" is a scheduled intercept, not a work id: it goes when its window closes and the controller would raise it again. Remove its window from SCHEDULE_FILE to stop it")

abbrev pub found_removal : Removal → RemoveReply
found_removal t = elim (is_nothing t.removed) [
  | false ↦ gone t
  | true ↦ elim (is_nothing t.deleted) [ true ↦ nothing_live | false ↦ gone t ]
]

module _ {W : Type 0} (m : Manager W) (c : Option (Cluster W)) (sessions : Sessions)
    (allowed scheduled : List Text) where
  -- The intercepts of the previews, over the registry that has them no more.
  unfoldable pub remove_previews : Registry → List Preview → W → (List Text × List Text) × W
  unfolding remove
  remove_previews r [] w = (([], []), w)
  remove_previews r (p ∷ ps) w =
      let (done, w1) = remove m sessions r p w in
      let ((removed, problems), w2) = remove_previews r ps w1 in
      ((agent_key p ∷ removed, with_problem done problems), w2)

  -- `tearDownWork`
  unfoldable pub tear_down_work : Text → Registry → W → Removal × Registry × W
  unfolding remove_work remove_previews drop_workload
  tear_down_work work_id r w =
      let (r1, ps) = remove_work r work_id in
      let ((removed, problems), w1) = remove_previews r1 ps w in
      let ((deleted, kube_problems), w2) = drop_workload c allowed work_id [] w1 in
      let t : Removal = record {
        removed = removed;
        deleted = deleted;
        problems = problems ++ kube_problems;
      } in
      (t, r1, w2)

  unfoldable pub remove_unscheduled : Text → Bool → Registry → W → RemoveReply × Registry × W
  unfolding tear_down_work
  remove_unscheduled work_id true r w = (not_removed (refuse_scheduled work_id), r, w)
  remove_unscheduled work_id false r w =
      let (t, r1, w1) = tear_down_work work_id r w in (found_removal t, r1, w1)

  -- `handleRemoveWork`
  unfoldable pub handle_remove_work : Text → Registry → W → RemoveReply × Registry × W
  unfolding contains remove_unscheduled
  handle_remove_work work_id r w = remove_unscheduled work_id (contains work_id scheduled) r w

  unfoldable pub remove_found :
      ServiceKey → Option Preview → Dropped → Registry → W → RemoveReply × Registry × W
  unfolding remove
  remove_found k none ([], problems) r w = (nothing_live, r, w)
  remove_found k none (d ∷ ds, problems) r w =
      let t : Removal = record {
        removed = (k.workload ++ (codes "." ++ k.namespace)) ∷ [];
        deleted = d ∷ ds;
        problems = problems;
      } in
      (gone t, r, w)
  remove_found k (some p) (deleted, problems) r w =
      let (done, w1) = remove m sessions r p w in
      let t : Removal = record {
        removed = (k.workload ++ (codes "." ++ k.namespace)) ∷ [];
        deleted = deleted;
        problems = problems ++ with_problem done [];
      } in
      (gone t, r, w1)

  unfoldable pub remove_service_unscheduled :
      ServiceKey → Bool → Registry → W → RemoveReply × Registry × W
  unfolding delete get drop_workload remove_found
  remove_service_unscheduled k true r w = (not_removed (refuse_scheduled k.work_id), r, w)
  remove_service_unscheduled k false r w =
      let (dropped, w1) = drop_workload c allowed k.work_id k.workload w in
      remove_found k (get k r) dropped (delete k r) w1

  -- `handleRemoveService`
  unfoldable pub handle_remove_service : ServiceKey → Registry → W → RemoveReply × Registry × W
  unfolding contains remove_service_unscheduled
  handle_remove_service k r w = remove_service_unscheduled k (contains k.work_id scheduled) r w
