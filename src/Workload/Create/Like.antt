-- ===== src/Workload/Create/Like.antt =====
-- workload.go: what the creation leaves alone of the preview.
use agentic_preview.Common.{◌≡◌, refl, Bool, true, false, List, [], ◌∷◌}
use agentic_preview.Common.Result.{Result, ok, err}
use agentic_preview.Common.Sort.{contains}
use agentic_preview.Text.{Text}
use agentic_preview.Preview.{Preview, CreateSpec, key}
use agentic_preview.Workload.Build.{Deployment, Service, CreateError, build_preview_deployment}
use agentic_preview.Workload.Capture.{captured_by}
use agentic_preview.Workload.Apply.{GetError, Rollout, Builder, apply_deployment, apply_service}
use agentic_preview.Workload.Ready.{wait_ready}
use agentic_preview.Workload.Create.{
  CreateConfig, Building, building, no_builder, with_created, settled, create_served,
  create_applied, create_isolated, create_checked, create_built, create_from, create_live,
  create_allowed, create_workload,
}

-- The same service of the same work id, in the same mode, with the same deadline.
pub record IsLike (p q : Preview) : Type 0 where
  pub keyed : key q ≡ key p
  pub mode : q.global ≡ p.global
  pub deadline : q.expires_at ≡ p.expires_at

pub IsLike-refl : (p : Preview) → IsLike p p
IsLike-refl p = record { keyed = refl; mode = refl; deadline = refl }

settled-IsLike :
    {W : Type 0} (spec : CreateSpec) (p q : Preview) (t : (Bool × Text) × W)
    → IsLike p q
    → IsLike p (settled spec q t).1
unfolding settled
settled-IsLike spec p q ((true, d), w) h = record {
  keyed = h.keyed;
  mode = h.mode;
  deadline = h.deadline;
}
settled-IsLike spec p q ((false, d), w) h = record {
  keyed = h.keyed;
  mode = h.mode;
  deadline = h.deadline;
}

with_created-IsLike :
    {X : Type 0} (spec : CreateSpec) (dep container : Text) (svc : Service X) (p : Preview)
    → IsLike p (with_created spec dep container svc p)
unfolding with_created
with_created-IsLike spec dep container svc p = record { keyed = refl; mode = refl; deadline = refl }

module _ {W X : Type 0} (cfg : CreateConfig) (b : Builder W X) (spec : CreateSpec)
    (p : Preview) where
  create_served-IsLike :
      (dep container : Text) (s : Result CreateError (Service X)) (w : W)
      → IsLike p (create_served cfg b spec p dep container s w).1
  unfolding create_served
  create_served-IsLike dep container (err e) w = IsLike-refl p
  create_served-IsLike dep container (ok svc) w =
      settled-IsLike spec p (with_created spec dep container svc p)
        (wait_ready b cfg.ready_ticks spec.namespace spec.name spec.replicas w)
        (with_created-IsLike spec dep container svc p)

  create_applied-IsLike :
      (want : Service X) (dep container : Text) (r : Result CreateError (Unit {0})) (w : W)
      → IsLike p (create_applied cfg b spec p want dep container r w).1
  unfolding create_applied
  create_applied-IsLike want dep container (err e) w = IsLike-refl p
  create_applied-IsLike want dep container (ok done) w =
      create_served-IsLike dep container (apply_service b want w).0 (apply_service b want w).1

  create_isolated-IsLike :
      (svc : Service X) (want : Deployment X × Text) (hits : List Text) (w : W)
      → IsLike p (create_isolated cfg b spec p svc want hits w).1
  unfolding create_isolated
  create_isolated-IsLike svc (want, container) (h ∷ hs) w = IsLike-refl p
  create_isolated-IsLike svc (want, container) [] w =
      create_applied-IsLike _ want.name container (apply_deployment b want w).0
        (apply_deployment b want w).1

  create_checked-IsLike :
      (svc : Service X) (want : Deployment X × Text) (l : Result Text (List (Service X))) (w : W)
      → IsLike p (create_checked cfg b spec p svc want l w).1
  unfolding create_checked
  create_checked-IsLike svc (want, container) (err e) w = IsLike-refl p
  create_checked-IsLike svc (want, container) (ok all) w =
      create_isolated-IsLike svc (want, container) (captured_by all spec.name want.template.labels)
        w

  create_built-IsLike :
      (svc : Service X) (d : Result CreateError (Deployment X × Text)) (w : W)
      → IsLike p (create_built cfg b spec p svc d w).1
  unfolding create_built
  create_built-IsLike svc (err e) w = IsLike-refl p
  create_built-IsLike svc (ok want) w =
      let all = b.list_services spec.namespace w in create_checked-IsLike svc want all.0 all.1

  create_live-IsLike :
      (g : Result GetError (Deployment X × Rollout)) (w : W)
      → IsLike p (create_live cfg b spec p g w).1
  unfolding create_live
  create_live-IsLike (err e) w = IsLike-refl p
  create_live-IsLike (ok (live, rollout)) w =
      let svc = b.get_service spec.namespace spec.source_service w in from svc.0 svc.1
    where
      from :
          (s : Result GetError (Service X)) (v : W) → IsLike p (create_from cfg b spec p live s v).1
      from (err e) v = unfold create_from in (IsLike-refl p)
      from (ok svc) v =
          unfold create_from in (create_built-IsLike svc (build_preview_deployment live spec p) v)

pub create_workload-IsLike :
    {W X : Type 0} (cfg : CreateConfig) (k : Building W X) (spec : CreateSpec) (p : Preview) (w : W)
    → IsLike p (create_workload cfg k spec p w).1
unfolding create_workload
create_workload-IsLike {W = W} {X = X} cfg k spec p w =
    gated k (contains spec.namespace cfg.allowed_namespaces)
  where
    gated : (k : Building W X) (g : Bool) → IsLike p (create_allowed cfg k spec p g w).1
    gated k false = unfold create_allowed in (IsLike-refl p)
    gated (no_builder e) true = unfold create_allowed in (IsLike-refl p)
    gated (building b) true =
        unfold create_allowed in
        (let live = b.get_deployment spec.namespace spec.source_workload w in
          create_live-IsLike cfg b spec p live.0 live.1)
