-- ===== src/Workload/Apply.antt =====
-- workload.go: a Deployment or a Service of a preview created, or updated where it is ours. The
-- Kubernetes client is a parameter.
use agentic_preview.Common.{Bool, true, false, List, ◌++◌, Option}
use agentic_preview.Common.Int.{ℤ}
use agentic_preview.Common.Result.{Result, ok, err}
use agentic_preview.Text.{Text, codes}
use agentic_preview.Workload.{owned_by_us}
use agentic_preview.Workload.Build.{Deployment, Service, CreateError, bad_request, failed}

-- `isNotFound` or not, with the message.
pub data GetError : Type 0 where
  absent unread : Text → GetError

-- The numbers of a Deployment that `waitReady` reads.
pub record Rollout : Type 0 where
  pub observed_generation : ℤ
  pub generation : ℤ
  pub ready_replicas : ℤ
  pub updated_replicas : ℤ

-- What `podTrouble` reads of a container and of a pod: a reason and a message, or a reason and an
-- exit code.
pub record ContainerStatus : Type 0 where
  pub name : Text
  pub waiting : Option (Text × Text)
  pub terminated : Option (Text × ℤ)
  pub restart_count : ℤ

pub record Pod : Type 0 where
  pub name : Text
  pub phase : Text
  pub statuses : List ContainerStatus

-- `kubeAPI` (kube.go), by what the creation of a preview calls.
pub record Builder (W X : Type 0) : Type 0 where
  pub get_deployment : Text → Text → W → Result GetError (Deployment X × Rollout) × W
  pub create_deployment : Deployment X → W → Result Text (Unit {0}) × W
  pub update_deployment : Deployment X → W → Result Text (Unit {0}) × W
  pub get_service : Text → Text → W → Result GetError (Service X) × W
  pub create_service : Service X → W → Result Text (Service X) × W
  pub update_service : Service X → W → Result Text (Service X) × W
  pub list_services : Text → W → Result Text (List (Service X)) × W
  pub list_pods : Text → Text → W → Result Text (List Pod) × W

abbrev pub dotted : Text → Text → Text
dotted name ns = name ++ (codes "." ++ ns)

abbrev pub failing : {A : Type 0} → Text → Result Text A → Result CreateError A
failing what (ok a) = ok a
failing what (err e) = err (failed (what ++ (codes ": " ++ e)))

abbrev pub not_ours : Text → Text → Text → Text
not_ours kind name ns =
    kind
    ++ (codes " "
        ++ (dotted name ns
            ++ codes
                " already exists and was not created by agentic-preview - refusing to touch it"))

module _ {W X : Type 0} (b : Builder W X) where
  unfoldable pub update_ours :
      Deployment X → Deployment X → Bool → W → Result CreateError (Unit {0}) × W
  update_ours want live false w =
      (err (bad_request (not_ours (codes "Deployment") want.name want.namespace)), w)
  update_ours want live true w =
      let (r, w1) =
        b.update_deployment (record want { resource_version = live.resource_version }) w in
      (failing (codes "updating Deployment " ++ dotted want.name want.namespace) r, w1)

  unfoldable pub apply_read :
      Deployment X
      → Result GetError (Deployment X × Rollout)
      → W
      → Result CreateError (Unit {0}) × W
  unfolding owned_by_us update_ours
  apply_read want (err (unread e)) w =
      (err (failed (codes "reading " ++ (dotted want.name want.namespace ++ (codes ": " ++ e)))), w)
  apply_read want (err (absent e)) w =
      let (r, w1) = b.create_deployment want w in
      (failing (codes "creating Deployment " ++ dotted want.name want.namespace) r, w1)
  apply_read want (ok (live, rollout)) w = update_ours want live (owned_by_us live.labels) w

  -- `applyDeployment`
  unfoldable pub apply_deployment : Deployment X → W → Result CreateError (Unit {0}) × W
  unfolding apply_read
  apply_deployment want w =
      let (live, w1) = b.get_deployment want.namespace want.name w in apply_read want live w1

  unfoldable pub update_our_service :
      Service X → Service X → Bool → W → Result CreateError (Service X) × W
  update_our_service want live false w =
      (err (bad_request (not_ours (codes "Service") want.name want.namespace)), w)
  update_our_service want live true w =
      let next : Service X = record want {
        resource_version = live.resource_version;
        cluster_ip = live.cluster_ip;
        cluster_ips = live.cluster_ips;
      } in
      let (r, w1) = b.update_service next w in
      (failing (codes "updating Service " ++ dotted want.name want.namespace) r, w1)

  unfoldable pub apply_service_read :
      Service X → Result GetError (Service X) → W → Result CreateError (Service X) × W
  unfolding owned_by_us update_our_service
  apply_service_read want (err (unread e)) w = (
    err (
        failed
          (codes "reading Service " ++ (dotted want.name want.namespace ++ (codes ": " ++ e)))),
    w,
  )
  apply_service_read want (err (absent e)) w =
      let (r, w1) = b.create_service want w in
      (failing (codes "creating Service " ++ dotted want.name want.namespace) r, w1)
  apply_service_read want (ok live) w = update_our_service want live (owned_by_us live.labels) w

  -- `applyService`
  unfoldable pub apply_service : Service X → W → Result CreateError (Service X) × W
  unfolding apply_service_read
  apply_service want w =
      let (live, w1) = b.get_service want.namespace want.name w in apply_service_read want live w1
