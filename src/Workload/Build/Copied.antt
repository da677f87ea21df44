-- ===== src/Workload/Build/Copied.antt =====
-- workload.go: what the copy of a live Deployment is.
use agentic_preview.Common.{
  ◌≡◌, ◌≢◌, refl, sym, List, [], ◌∷◌, none, some, All, text_key, arith, ◌∙◌, if◌then◌else◌,
}
use agentic_preview.Common.Assoc.{get}
use agentic_preview.Common.Result.{Result, ok, err}
use agentic_preview.Text.{Text, codes}
use agentic_preview.Preview.{Preview, CreateSpec}
use agentic_preview.Workload.{preview_labels, preview_label}
use agentic_preview.Workload.Build.{
  Container, Deployment, CreateError, drop_container, find_container, pick_container, swapped,
  copied_template, made_deployment, built_deployment, build_preview_deployment, container_names,
  is_dropped,
}
use agentic_preview.Workload.Build.Labels.{
  either, put_all-preview, get-put_all, preview_labels-Distinct, get-kept_annotations,
}
use agentic_preview.Workload.Build.Containers.{
  drop_container-free, swap_in-All, find_container-swap_in_other, find_container-drop_container,
  container_names-swap_in, find_container-swap_in, pick_container-found,
}

module _ {X : Type 0} where
  -- Of a preview's Deployment and the name of its container. The Deployment itself: its name, its
  -- namespace, its replicas and its labels are the asked ones, no version of the live one is copied,
  -- and its selector asks for the preview's own label. Its pods: the preview's labels over the live
  -- ones, the live annotations without the dropped ones, the other fields of the live pod. The
  -- container of the name is the live one with the given image and its liveness probe as readiness
  -- probe; every other one is the live one, in the live order, but the injected agents are gone.
  pub record IsCopy (live d : Deployment X) (spec : CreateSpec) (p : Preview) (name : Text)
      : Type 0 where
    pub named : d.name ≡ spec.name
    pub placed : d.namespace ≡ spec.namespace
    pub sized : d.replicas ≡ spec.replicas
    pub labelled : d.labels ≡ preview_labels p spec.name
    pub fresh : d.resource_version ≡ []
    pub selects : d.selector ≡ (preview_label, spec.name) ∷ []
    pub selected : get preview_label d.template.labels ≡ some spec.name
    pub pod_labels :
        (k : Text)
        → get k d.template.labels
          ≡ either (get k (preview_labels p spec.name)) (get k live.template.labels)
    pub annotations :
        (k : Text)
        → get k d.template.annotations
          ≡ (if is_dropped k then none else get k live.template.annotations)
    pub pod_others : d.template.others ≡ live.template.others
    pub source : Container X
    pub live_container :
        find_container name (drop_container live.template.containers (codes "traffic-agent"))
        ≡ some source
    pub new_container : find_container name d.template.containers ≡ some (swapped spec.image source)
    pub other_containers :
        (n : Text)
        → n ≢ name
        → n ≢ codes "traffic-agent"
        → find_container n d.template.containers ≡ find_container n live.template.containers
    pub order :
        container_names d.template.containers
        ≡ container_names (drop_container live.template.containers (codes "traffic-agent"))
    pub no_agent : All (λ c. c.name ≢ codes "traffic-agent") d.template.containers
    pub init_containers :
        (n : Text)
        → n ≢ codes "tel-agent-init"
        → find_container n d.template.init_containers
          ≡ find_container n live.template.init_containers
    pub no_agent_init : All (λ c. c.name ≢ codes "tel-agent-init") d.template.init_containers

  pair_same :
      (d d1 : Deployment X) (n n1 : Text)
      → Path (Result CreateError (Deployment X × Text)) (ok (d, n)) (ok (d1, n1))
      → (d ≡ d1) × (n ≡ n1)
  pair_same d d1 n n1 q = (cc, cc)

  made_deployment-IsCopy :
      (live : Deployment X) (spec : CreateSpec) (p : Preview) (target : Container X)
      → find_container target.name (drop_container live.template.containers (codes "traffic-agent"))
        ≡ some target
      → IsCopy live
          (made_deployment (copied_template live.template spec p) spec p target)
          spec
          p
          target.name
  unfolding made_deployment copied_template
  made_deployment-IsCopy live spec p target f =
      let kept = drop_container live.template.containers (codes "traffic-agent") in
      record {
        named = refl;
        placed = refl;
        sized = refl;
        labelled = refl;
        fresh = refl;
        selects = refl;
        selected = put_all-preview p spec.name live.template.labels;
        pod_labels = λ k.
            get-put_all k (preview_labels p spec.name) live.template.labels
              (preview_labels-Distinct p spec.name);
        annotations = λ k. get-kept_annotations k live.template.annotations;
        pod_others = refl;
        source = target;
        live_container = f;
        new_container = find_container-swap_in target.name spec.image _ target f;
        other_containers = λ n o a.
            find_container-swap_in_other target.name spec.image n kept o
            ∙ find_container-drop_container n (codes "traffic-agent") live.template.containers a;
        order = container_names-swap_in target.name spec.image kept;
        no_agent =
            swap_in-All (λ n. n ≢ codes "traffic-agent") target.name spec.image _
              (drop_container-free live.template.containers (codes "traffic-agent"));
        init_containers = λ n a.
            find_container-drop_container n (codes "tel-agent-init") live.template.init_containers
              a;
        no_agent_init = drop_container-free live.template.init_containers (codes "tel-agent-init");
      }

  -- Where a preview's Deployment is built, it has the asked name, namespace and replicas, the preview's
  -- labels, no version of the live one, and a selector that asks for the preview's own label. Its pods
  -- have the preview's labels over the live ones, the live annotations without the dropped ones, and
  -- the other fields of the live pod. The container of the returned name is the live one of that name
  -- with the given image and its liveness probe as readiness probe; every other container and init
  -- container of a name is the live one, the containers in the live order, but the injected agents are
  -- gone.
  pub build_preview_deployment-IsCopy :
      (live : Deployment X) (spec : CreateSpec) (p : Preview) (d : Deployment X) (name : Text)
      → build_preview_deployment live spec p ≡ ok (d, name)
      → IsCopy live d spec p name
  unfolding build_preview_deployment copied_template
  build_preview_deployment-IsCopy live spec p d name h =
      built (pick_container kept spec.source_workload spec.container) refl h
    where
      kept : List (Container X)
      kept = drop_container live.template.containers (codes "traffic-agent")

      built :
          (a : Result CreateError (Container X))
          → pick_container kept spec.source_workload spec.container ≡ a
          → built_deployment (copied_template live.template spec p) spec p a ≡ ok (d, name)
          → IsCopy live d spec p name
      built (err x) e q = absurd (unfold built_deployment in (ground arith))
      built (ok target) e q =
          let made_one = made_deployment (copied_template live.template spec p) spec p target in
          let (made, own) = pair_same made_one d target.name name (unfold built_deployment in q) in
          rw (sym made, sym own)
            (made_deployment-IsCopy live spec p target
              (pick_container-found kept spec.source_workload spec.container target e))
