-- ===== src/Workload/Build.antt =====
-- workload.go: the Deployment and the Service of a preview, copied from the live ones. `X` is what
-- Kubernetes keeps in an object and the service only copies.
pub mod Labels
pub mod Containers
pub mod Copied
use agentic_preview.Common.{
  ℕ, Bool, true, false, not, ◌&&◌, ◌||◌, List, [], ◌∷◌, ◌++◌, Option, none, some, ◌==◌,
  if◌then◌else◌, eq_text, text_key,
}
use agentic_preview.Common.Assoc.{Assoc, get, put}
use agentic_preview.Common.Int.{ℤ, pos, eqb_ℤ}
use agentic_preview.Common.Result.{Result, ok, err}
use agentic_preview.Text.{Text, codes, has_prefix, join}
use agentic_preview.Preview.{Preview, CreateSpec}
use agentic_preview.Workload.{LabelMap, preview_labels, preview_label}

pub record Container (X : Type 0) : Type 0 where
  pub name : Text
  pub image : Text
  pub liveness_probe : Option X
  pub readiness_probe : Option X
  pub others : X

pub record PodTemplate (X : Type 0) : Type 0 where
  pub labels : LabelMap
  pub annotations : LabelMap
  pub containers : List (Container X)
  pub init_containers : List (Container X)
  pub others : X

pub record Deployment (X : Type 0) : Type 0 where
  pub name : Text
  pub namespace : Text
  pub labels : LabelMap
  pub resource_version : Text
  pub replicas : ℤ
  pub selector : LabelMap
  pub template : PodTemplate X

pub record ServicePort (X : Type 0) : Type 0 where
  pub name : Text
  pub port : ℤ
  pub node_port : ℤ
  pub others : X

pub record Service (X : Type 0) : Type 0 where
  pub name : Text
  pub namespace : Text
  pub labels : LabelMap
  pub resource_version : Text
  pub selector : LabelMap
  pub cluster_ip : Text
  pub cluster_ips : List Text
  pub ports : List (ServicePort X)

-- What a caller can put right (answered with 400), and what it cannot.
pub data CreateError : Type 0 where
  bad_request failed : Text → CreateError

-- The labels of the copy, ours over its own.
unfoldable pub put_all : LabelMap → LabelMap → LabelMap
unfolding put
put_all [] labels = labels
put_all ((k, v) ∷ ours) labels = put_all ours (put k v labels)

abbrev pub is_dropped : Text → Bool
is_dropped k =
    has_prefix k (codes "telepresence.getambassador.io/")
    || eq_text k (codes "kubectl.kubernetes.io/restartedAt")

unfoldable pub kept_annotations : LabelMap → LabelMap
unfolding has_prefix eq_text
kept_annotations [] = []
kept_annotations ((k, v) ∷ more) =
    let rest = kept_annotations more in if is_dropped k then rest else (k, v) ∷ rest

module _ {X : Type 0} where
  -- `dropContainer`
  unfoldable pub drop_container : List (Container X) → Text → List (Container X)
  unfolding eq_text
  drop_container [] name = []
  drop_container (c ∷ cs) name =
      let rest = drop_container cs name in if not (eq_text c.name name) then c ∷ rest else rest

  unfoldable pub container_names : List (Container X) → List Text
  container_names [] = []
  container_names (c ∷ cs) = c.name ∷ container_names cs

  -- The place of the first container of the name.
  unfoldable pub find_container : Text → List (Container X) → Option (Container X)
  unfolding eq_text
  find_container name [] = none
  find_container name (c ∷ cs) =
      let later = find_container name cs in if eq_text c.name name then some c else later

  abbrev pub named_container :
      Text → Text → List (Container X) → Option (Container X) → Result CreateError (Container X)
  named_container deployment override cs (some c) = ok c
  named_container deployment override cs none = err (
      bad_request (
        codes "container \""
        ++ (override
            ++ (codes "\" is not in "
                ++ (deployment
                    ++ (codes " (it has: "
                        ++ (join (codes ", ") (container_names cs) ++ codes ")")))))))

  abbrev pub only_container :
      Text → List (Container X) → Option (Container X) → Result CreateError (Container X)
  only_container deployment cs (some c) = ok c
  only_container deployment [] none =
      err (bad_request (codes "live Deployment " ++ (deployment ++ codes " has no containers")))
  only_container deployment (c ∷ []) none = ok c
  only_container deployment (c ∷ d ∷ cs) none = err (
      bad_request (
        deployment
        ++ (codes " has several containers ("
            ++ (join (codes ", ") (container_names (c ∷ d ∷ cs))
                ++ codes ") and none named after it - say which one with \"container\""))))

  -- `pickContainer`; an empty override is no override
  unfoldable pub pick_container :
      List (Container X) → Text → Text → Result CreateError (Container X)
  unfolding find_container container_names
  pick_container [] deployment override =
      err (bad_request (codes "live Deployment " ++ (deployment ++ codes " has no containers")))
  pick_container (c ∷ cs) deployment [] =
      only_container deployment (c ∷ cs) (find_container deployment (c ∷ cs))
  pick_container (c ∷ cs) deployment (o ∷ override) =
      named_container deployment (o ∷ override) (c ∷ cs) (find_container (o ∷ override) (c ∷ cs))

  -- The image swapped, and the readiness probe replaced.
  abbrev pub swapped : Text → Container X → Container X
  swapped image c = record c { image = image; readiness_probe = c.liveness_probe }

  -- The picked container is changed where it stands: the first of its name.
  unfoldable pub swap_in : Text → Text → List (Container X) → List (Container X)
  unfolding eq_text
  swap_in name image [] = []
  swap_in name image (c ∷ cs) =
      let rest = swap_in name image cs in
      if eq_text c.name name then swapped image c ∷ cs else c ∷ rest

  -- The pod template before its container is picked.
  unfoldable pub copied_template : PodTemplate X → CreateSpec → Preview → PodTemplate X
  unfolding put_all preview_labels kept_annotations drop_container
  copied_template t spec p = record t {
    labels = put_all (preview_labels p spec.name) t.labels;
    annotations = kept_annotations t.annotations;
    containers = drop_container t.containers (codes "traffic-agent");
    init_containers = drop_container t.init_containers (codes "tel-agent-init");
  }

  unfoldable pub made_deployment : PodTemplate X → CreateSpec → Preview → Container X → Deployment X
  unfolding preview_labels swap_in
  made_deployment t spec p target = record {
    name = spec.name;
    namespace = spec.namespace;
    labels = preview_labels p spec.name;
    resource_version = [];
    replicas = spec.replicas;
    selector = (preview_label, spec.name) ∷ [];
    template = record t { containers = swap_in target.name spec.image t.containers };
  }

  unfoldable pub built_deployment :
      PodTemplate X
      → CreateSpec
      → Preview
      → Result CreateError (Container X)
      → Result CreateError (Deployment X × Text)
  unfolding made_deployment
  built_deployment t spec p (err e) = err e
  built_deployment t spec p (ok target) = ok (made_deployment t spec p target, target.name)

  -- `buildPreviewDeployment`
  unfoldable pub build_preview_deployment :
      Deployment X → CreateSpec → Preview → Result CreateError (Deployment X × Text)
  unfolding copied_template pick_container built_deployment
  build_preview_deployment live spec p =
      let t = copied_template live.template spec p in
      built_deployment t spec p (pick_container t.containers spec.source_workload spec.container)

  unfoldable pub copied_ports : List (ServicePort X) → List (ServicePort X)
  copied_ports [] = []
  copied_ports (p ∷ ps) = record p { node_port = pos 0 } ∷ copied_ports ps

  -- `buildPreviewService`
  unfoldable pub build_preview_service : Service X → CreateSpec → Preview → Service X
  unfolding preview_labels copied_ports
  build_preview_service live spec p = record {
    name = spec.name;
    namespace = spec.namespace;
    labels = preview_labels p spec.name;
    resource_version = [];
    selector = (preview_label, spec.name) ∷ [];
    cluster_ip = [];
    cluster_ips = [];
    ports = copied_ports live.ports;
  }

  unfoldable pub port_named : Text → List (ServicePort X) → Option ℤ
  unfolding eq_text
  port_named name [] = none
  port_named name (p ∷ ps) =
      let later = port_named name ps in if eq_text p.name name then some p.port else later

  abbrev pub has_80 : List (ServicePort X) → Bool
  has_80 [] = false
  has_80 (p ∷ ps) = eqb_ℤ p.port (pos 80) || has_80 ps

  abbrev pub port_of : Option ℤ → List (ServicePort X) → ℤ
  port_of (some port) ps = port
  port_of none [] = pos 80
  port_of none (p ∷ ps) = if has_80 (p ∷ ps) then pos 80 else p.port

  -- `servicePort`
  unfoldable pub service_port : Service X → ℤ
  unfolding port_named
  service_port s = port_of (port_named (codes "http") s.ports) s.ports
