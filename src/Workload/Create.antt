-- ===== src/Workload/Create.antt =====
-- workload.go: a preview's Deployment and Service created from the live ones.
pub mod Isolated
pub mod Like
use agentic_preview.Common.{
  ℕ, Bool, true, false, List, [], ◌∷◌, ◌++◌, Option, none, some, if◌then◌else◌,
}
use agentic_preview.Common.Int.{ℤ, pos, eqb_ℤ}
use agentic_preview.Common.Result.{Result, ok, err}
use agentic_preview.Common.Sort.{contains}
use agentic_preview.Text.{Text, codes, join}
use agentic_preview.Text.Decimal.{decimal}
use agentic_preview.Preview.{Preview, CreateSpec, CreatedObjects}
use agentic_preview.Workload.Build.{
  Deployment, Service, CreateError, bad_request, failed, build_preview_deployment,
  build_preview_service, service_port,
}
use agentic_preview.Workload.Capture.{captured_by}
use agentic_preview.Workload.Apply.{
  GetError, absent, unread, Rollout, Builder, dotted, apply_deployment, apply_service,
}
use agentic_preview.Workload.Ready.{wait_ready}

-- The part of `config` that the creation reads; `ready_ticks` is how often `waitReady` looks again
-- before its deadline, and nothing where it does not wait.
pub record CreateConfig : Type 0 where
  pub allowed_namespaces : List Text
  pub ready_ticks : Option ℕ

-- `s.kube`, or `s.kubeErr` where there is none
pub data Building (W X : Type 0) : Type 0 where
  building : Builder W X → Building W X
  no_builder : Text → Building W X

unfoldable pub outside : List Text → Text → Text
unfolding join
outside allowed ns =
    codes "refusing to create a preview in namespace \""
    ++ (ns
        ++ (codes "\": it is not in agentic-preview's allowed set ("
            ++ (join (codes ", ") allowed ++ codes ")")))

abbrev pub unable : Text → Text
unable e =
    codes "agentic-preview has no Kubernetes API client ("
    ++ (e
        ++ codes
            "), so it cannot create a preview: deploy the preview yourself and POST previewService instead")

unfoldable pub live_missing : CreateSpec → GetError → CreateError
live_missing spec (absent e) = bad_request (
    codes "no Deployment "
    ++ (spec.source_workload
        ++ (codes " in namespace " ++ (spec.namespace ++ codes " to copy the preview from"))))
live_missing spec (unread e) = failed (
    codes "reading live Deployment "
    ++ (dotted spec.source_workload spec.namespace ++ (codes ": " ++ e)))

unfoldable pub live_service_missing : CreateSpec → GetError → CreateError
live_service_missing spec (absent e) = bad_request (
    codes "no Service "
    ++ (spec.source_service
        ++ (codes " in namespace "
            ++ (spec.namespace
                ++ codes
                    " to copy the preview's ports from - name it with \"sourceService\" if the Service is not called the same as the workload"))))
live_service_missing spec (unread e) = failed (
    codes "reading live Service "
    ++ (dotted spec.source_service spec.namespace ++ (codes ": " ++ e)))

unfoldable pub captured_message : CreateSpec → List Text → Text
unfolding join
captured_message spec hits =
    codes "refusing to create "
    ++ (spec.name
        ++ (codes ": its pod labels are copied from "
            ++ (spec.source_workload
                ++ (codes " and would still be selected by "
                    ++ (join (codes "; ") hits
                        ++ codes
                            ", which would put this build into live traffic. Change the label those Services select on, or deploy the preview yourself and POST previewService instead")))))

unfoldable pub unready_message : CreateSpec → Preview → Text → Text
unready_message spec p detail =
    codes "preview "
    ++ (dotted spec.name spec.namespace
        ++ (codes " was created but never became ready, so no intercept was raised: "
            ++ (detail
                ++ (codes ". The objects are left in place to look at; DELETE /previews/"
                    ++ (p.work_id ++ codes " removes them")))))

-- What the preview records of the objects that were made.
unfoldable pub with_created :
    {X : Type 0} → CreateSpec → Text → Text → Service X → Preview → Preview
unfolding service_port
with_created spec deployment container svc p =
    let made : CreatedObjects = record {
      namespace = spec.namespace;
      deployment = deployment;
      service = svc.name;
      container = container;
      replicas = spec.replicas;
      ready = false;
    } in
    record p {
      target_port = if eqb_ℤ p.target_port (pos 0) then service_port svc else p.target_port;
      image = spec.image;
      created = some made;
    }

abbrev pub mark_ready : Bool → Option CreatedObjects → Option CreatedObjects
mark_ready ready none = none
mark_ready ready (some made) = some (record made { ready = ready })

unfoldable pub settled :
    {W : Type 0}
    → CreateSpec
    → Preview
    → (Bool × Text) × W
    → Result CreateError (Unit {0}) × Preview × W
unfolding unready_message
settled spec p ((true, detail), w) = (ok tt, record p { created = mark_ready true p.created }, w)
settled spec p ((false, detail), w) = (
  err (bad_request (unready_message spec p detail)),
  record p { created = mark_ready false p.created },
  w,
)

module _ {W X : Type 0} (cfg : CreateConfig) (b : Builder W X) (spec : CreateSpec)
    (p : Preview) where
  unfoldable pub create_served :
      Text → Text → Result CreateError (Service X) → W → Result CreateError (Unit {0}) × Preview × W
  unfolding with_created wait_ready settled
  create_served deployment container (err e) w = (err e, p, w)
  create_served deployment container (ok svc) w =
      settled spec (with_created spec deployment container svc p)
        (wait_ready b cfg.ready_ticks spec.namespace spec.name spec.replicas w)

  unfoldable pub create_applied :
      Service X
      → Text
      → Text
      → Result CreateError (Unit {0})
      → W
      → Result CreateError (Unit {0}) × Preview × W
  unfolding apply_service create_served
  create_applied want_svc deployment container (err e) w = (err e, p, w)
  create_applied want_svc deployment container (ok done) w =
      let (svc, w1) = apply_service b want_svc w in create_served deployment container svc w1

  unfoldable pub create_isolated :
      Service X → Deployment X × Text → List Text → W → Result CreateError (Unit {0}) × Preview × W
  unfolding captured_message apply_deployment build_preview_service create_applied
  create_isolated live_svc (want, container) (h ∷ hs) w =
      (err (bad_request (captured_message spec (h ∷ hs))), p, w)
  create_isolated live_svc (want, container) [] w =
      let (done, w1) = apply_deployment b want w in
      create_applied (build_preview_service live_svc spec p) want.name container done w1

  unfoldable pub create_checked :
      Service X
      → Deployment X × Text
      → Result Text (List (Service X))
      → W
      → Result CreateError (Unit {0}) × Preview × W
  unfolding captured_by create_isolated
  create_checked live_svc (want, container) (err e) w = (
    err (
        failed (
          codes "listing Services in "
          ++ (spec.namespace
              ++ (codes " to check the preview is isolated from live traffic: " ++ e)))),
    p,
    w,
  )
  create_checked live_svc (want, container) (ok all) w =
      create_isolated live_svc (want, container) (captured_by all spec.name want.template.labels) w

  unfoldable pub create_built :
      Service X
      → Result CreateError (Deployment X × Text)
      → W
      → Result CreateError (Unit {0}) × Preview × W
  unfolding create_checked
  create_built live_svc (err e) w = (err e, p, w)
  create_built live_svc (ok want) w =
      let (all, w1) = b.list_services spec.namespace w in create_checked live_svc want all w1

  unfoldable pub create_from :
      Deployment X → Result GetError (Service X) → W → Result CreateError (Unit {0}) × Preview × W
  unfolding live_service_missing build_preview_deployment create_built
  create_from live (err e) w = (err (live_service_missing spec e), p, w)
  create_from live (ok live_svc) w = create_built live_svc (build_preview_deployment live spec p) w

  unfoldable pub create_live :
      Result GetError (Deployment X × Rollout) → W → Result CreateError (Unit {0}) × Preview × W
  unfolding live_missing create_from
  create_live (err e) w = (err (live_missing spec e), p, w)
  create_live (ok (live, rollout)) w =
      let (svc, w1) = b.get_service spec.namespace spec.source_service w in create_from live svc w1

unfoldable pub create_allowed :
    {W X : Type 0}
    → CreateConfig
    → Building W X
    → CreateSpec
    → Preview
    → Bool
    → W
    → Result CreateError (Unit {0}) × Preview × W
unfolding outside create_live
create_allowed cfg k spec p false w =
    (err (bad_request (outside cfg.allowed_namespaces spec.namespace)), p, w)
create_allowed cfg (no_builder e) spec p true w = (err (failed (unable e)), p, w)
create_allowed cfg (building b) spec p true w =
    let (live, w1) = b.get_deployment spec.namespace spec.source_workload w in
    create_live cfg b spec p live w1

-- `createWorkload`, of the creation that the preview asks for
unfoldable pub create_workload :
    {W X : Type 0}
    → CreateConfig
    → Building W X
    → CreateSpec
    → Preview
    → W
    → Result CreateError (Unit {0}) × Preview × W
unfolding create_allowed contains
create_workload cfg k spec p w =
    create_allowed cfg k spec p (contains spec.namespace cfg.allowed_namespaces) w
