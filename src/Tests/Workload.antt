-- ===== src/Tests/Workload.antt =====
-- workload.go: a preview built beside a live Service, and objects dropped.
use agentic_preview.Common.{
  ◌≡◌, ◌↔◌, ◌∙◌, ap, refl, sym, arith, inl, inr, true, List, [], ◌∷◌, ◌++◌, some, In, All, eq_text,
  if◌then◌else◌,
}
use mathlib.Core.Path.{subst}
use agentic_preview.Common.Int.{pos}
use agentic_preview.Common.Result.{Result, ok, err}
use agentic_preview.Text.{Text, codes}
use agentic_preview.Preview.{CreateSpec}
use agentic_preview.Workload.{
  Kind, Object, Cluster, owner_selector, preview_labels, drop_workload, owned_by_us,
}
use agentic_preview.Workload.Owned.{Listed, drop_workload_owned}
use agentic_preview.Workload.Build.{Container, Deployment, Service, build_preview_deployment}
use agentic_preview.Workload.Build.Copied.{IsCopy, build_preview_deployment-IsCopy}
use agentic_preview.Workload.Capture.{captured_by, captured_by-none_iff, LeavesAlone}
use agentic_preview.Workload.Apply.{absent, Rollout, Builder}
use agentic_preview.Workload.Create.{CreateConfig, building, create_workload}
use agentic_preview.Workload.Create.Isolated.{IsIsolated, Allows, create_workload_isolated}
use agentic_preview.Tests.Samples.{checkout}

abbrev spec : CreateSpec
spec = record {
  namespace = codes "shop";
  source_workload = codes "checkout";
  source_service = codes "checkout";
  name = codes "checkout-pr";
  image = codes "registry/checkout:2";
  container = [];
  replicas = pos 1;
}

abbrev app : Container Text
app = record {
  name = codes "checkout";
  image = codes "registry/checkout:1";
  liveness_probe = some (codes "/live");
  readiness_probe = some (codes "/deep");
  others = [];
}

abbrev agent : Container Text
agent = record app { name = codes "traffic-agent" }

abbrev live : Deployment Text
live = record {
  name = codes "checkout";
  namespace = codes "shop";
  labels = [];
  resource_version = codes "9";
  replicas = pos 3;
  selector = (codes "app", codes "checkout") ∷ [];
  template = record {
    labels = (codes "app", codes "checkout") ∷ (codes "tier", codes "web") ∷ [];
    annotations = (codes "kubectl.kubernetes.io/restartedAt", codes "now") ∷ [];
    containers = app ∷ agent ∷ [];
    init_containers = [];
    others = [];
  };
}

abbrev copy : Deployment Text
copy = record {
  name = codes "checkout-pr";
  namespace = codes "shop";
  labels = preview_labels checkout (codes "checkout-pr");
  resource_version = [];
  replicas = pos 1;
  selector = (codes "agentic-preview/preview", codes "checkout-pr") ∷ [];
  template = record {
    labels =
        (codes "app", codes "checkout-pr")
        ∷ (codes "tier", codes "web")
        ∷ (codes "app.kubernetes.io/managed-by", codes "agentic-preview")
        ∷ (codes "agentic-preview/work-id", codes "AB-1")
        ∷ (codes "agentic-preview/workload", codes "checkout")
        ∷ (codes "agentic-preview/preview", codes "checkout-pr")
        ∷ [];
    annotations = [];
    containers =
        record app { image = codes "registry/checkout:2"; readiness_probe = some (codes "/live") }
        ∷ [];
    init_containers = [];
    others = [];
  };
}

copy_built : build_preview_deployment live spec checkout ≡ ok (copy, codes "checkout")
unfolding build_preview_deployment preview_labels
copy_built = refl

build_preview_deployment-IsCopy_example : IsCopy live copy spec checkout (codes "checkout")
build_preview_deployment-IsCopy_example =
    build_preview_deployment-IsCopy live spec checkout copy (codes "checkout") copy_built

abbrev live_service : Service Text
live_service = record {
  name = codes "checkout";
  namespace = codes "shop";
  labels = [];
  resource_version = codes "3";
  selector = (codes "app", codes "checkout") ∷ [];
  cluster_ip = codes "10.1.0.4";
  cluster_ips = [];
  ports = record { name = codes "http"; port = pos 8080; node_port = pos 0; others = [] } ∷ [];
}

-- A Service that selects by a label that the copy keeps.
abbrev wide_service : Service Text
wide_service = record live_service {
  name = codes "web";
  selector = (codes "tier", codes "web") ∷ [];
}

captured_by_wide :
    captured_by (live_service ∷ wide_service ∷ []) (codes "checkout-pr") copy.template.labels
    ≡ codes "web (selector tier=web)" ∷ []
unfolding captured_by
captured_by_wide = refl

captured_by-none_iff_example :
    (captured_by (live_service ∷ []) (codes "checkout-pr") copy.template.labels ≡ [])
    ↔ All (LeavesAlone (codes "checkout-pr") copy.template.labels) (live_service ∷ [])
captured_by-none_iff_example =
    captured_by-none_iff (live_service ∷ []) (codes "checkout-pr") copy.template.labels

abbrev rolled_out : Rollout
rolled_out = record {
  observed_generation = pos 1;
  generation = pos 1;
  ready_replicas = pos 1;
  updated_replicas = pos 1;
}

-- Only the live Deployment is there. The world is the list of the hits of the Deployments that were
-- written.
abbrev builder : Builder (List Text) Text
builder = record {
  get_deployment = λ ns name w.
      (if eq_text name (codes "checkout") then ok (live, rolled_out) else err (absent []), w);
  create_deployment =
      λ d w. (ok tt, captured_by (live_service ∷ []) (codes "checkout-pr") d.template.labels ++ w);
  update_deployment =
      λ d w. (ok tt, captured_by (live_service ∷ []) (codes "checkout-pr") d.template.labels ++ w);
  get_service = λ ns name w. (ok live_service, w);
  create_service = λ s w. (ok s, w);
  update_service = λ s w. (ok s, w);
  list_services = λ ns w. (ok (live_service ∷ []), w);
  list_pods = λ ns selector w. (ok [], w);
}

abbrev settings : CreateConfig
settings = record { allowed_namespaces = codes "shop" ∷ []; ready_ticks = some 3 }

isolated_uncaptured :
    (d : Deployment Text) (w : List Text)
    → IsIsolated builder (codes "shop" ∷ []) spec d
    → w ≡ []
    → captured_by (live_service ∷ []) (codes "checkout-pr") d.template.labels ++ w ≡ []
isolated_uncaptured d w i h =
    let same : i.answer ≡ live_service ∷ [] = answered_same i.answer i.answered in
    let none_hit =
      (captured_by-none_iff (live_service ∷ []) (codes "checkout-pr") d.template.labels).1 (
        subst (λ n. All (LeavesAlone n d.template.labels) (live_service ∷ [])) i.named
          (subst (All (LeavesAlone d.name d.template.labels)) same i.uncaptured)) in
    rw (none_hit, h) refl
  where
    answered_same :
        (l : List (Service Text))
        → Path (Result Text (List (Service Text))) (ok (live_service ∷ [])) (ok l)
        → l ≡ live_service ∷ []
    answered_same l q = cc

builder-Allows : Allows builder (codes "shop" ∷ []) spec (λ w. w ≡ [])
builder-Allows = record {
  reads_deployment = λ ns name w h. h;
  reads_service = λ ns name w h. h;
  reads_services = λ ns w h. h;
  reads_pods = λ ns selector w h. h;
  creates_service = λ s w h. h;
  updates_service = λ s w h. h;
  creates_deployment = λ d w i o h. isolated_uncaptured d w i h;
  updates_deployment = λ d w i o h. isolated_uncaptured d w i h;
}

create_workload_isolated_example :
    (create_workload settings (building builder) spec checkout []).2 ≡ []
create_workload_isolated_example =
    create_workload_isolated builder settings spec (λ w. w ≡ []) builder-Allows checkout [] refl

abbrev ours : Object
ours = record {
  name = codes "checkout-pr";
  labels = preview_labels checkout (codes "checkout-pr");
  created = 5;
}

abbrev theirs : Object
theirs = record { name = codes "checkout"; labels = []; created = 2 }

-- A server that answers every listing with both objects; the world is the names deleted.
abbrev careless : Cluster (List Text)
careless = record {
  list_objects = λ k ns selector w. (ok (ours ∷ theirs ∷ []), w);
  delete_object = λ k ns name w. (ok tt, name ∷ w);
}

dropped :
    (drop_workload (some careless) (codes "shop" ∷ []) (codes "AB-1") [] []).1
    ≡ codes "checkout-pr" ∷ codes "checkout-pr" ∷ []
unfolding drop_workload preview_labels
dropped = refl

abbrev OnlyOurs : List Text → Type 0
OnlyOurs = All (λ n. n ≡ codes "checkout-pr")

listed_ours :
    (o : Object)
    → In o (ours ∷ theirs ∷ [])
    → owned_by_us o.labels ≡ true
    → o.name ≡ codes "checkout-pr"
unfolding owned_by_us
listed_ours o (inl e) b = ap (λ (x : Object). x.name) e
listed_ours o (inr (inl e)) b =
    absurd (unowned (subst (λ (x : Object). owned_by_us x.labels ≡ true) e b))
  where
    unowned : owned_by_us [] ≡ true → ⊥
    unowned q = absurd (ground arith)
listed_ours o (inr (inr e)) b = absurd e

deletes_ours :
    (k : Kind) (ns name : Text) (w : List Text)
    → In ns (codes "shop" ∷ [])
    → Listed careless k ns (owner_selector (codes "AB-1") []) name
    → OnlyOurs w
    → OnlyOurs (careless.delete_object k ns name w).1
deletes_ours k ns name w i l h =
    let same : l.answer ≡ ours ∷ theirs ∷ [] = answered_same l.answer l.answered in
    (sym l.named ∙ listed_ours l.object (subst (In l.object) same l.among) l.owned, h)
  where
    answered_same :
        (m : List Object)
        → Path (Result Text (List Object)) (ok (ours ∷ theirs ∷ [])) (ok m)
        → m ≡ ours ∷ theirs ∷ []
    answered_same m q = cc

drop_workload_owned_example :
    OnlyOurs (drop_workload (some careless) (codes "shop" ∷ []) (codes "AB-1") [] []).1
drop_workload_owned_example =
    drop_workload_owned careless OnlyOurs (codes "shop" ∷ []) (codes "AB-1") [] (λ k ns w h. h)
      deletes_ours [] tt
