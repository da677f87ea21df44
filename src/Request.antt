-- ===== src/Request.antt =====
-- preview.go: what a request to raise a preview comes to. An error is a constructor in place of its
-- message.
pub mod Fence
use agentic_preview.Common.{
  ℕ, Bool, true, false, not, ◌&&◌, ◌||◌, List, [], ◌∷◌, ◌++◌, Option, none, some, if◌then◌else◌,
  eq_text,
}
use agentic_preview.Common.Int.{ℤ, pos, negsuc, ltb_ℤ, eqb_ℤ}
use agentic_preview.Common.Result.{Result, ok, err, ◌>>=◌, ◌>>◌, require, refuse}
use agentic_preview.Common.Sort.{contains}
use agentic_preview.Text.{Text, codes, trim_space}
use agentic_preview.Names.{is_label, is_work_id, is_image_ref, sanitise}
use agentic_preview.Preview.{CreateSpec, Preview}
use agentic_preview.Compiler.{split_target, or_else}

pub record PreviewRequest : Type 0 where
  pub work_id : Text
  pub workload : Text
  pub namespace : Text
  pub preview_service : Text
  pub preview_namespace : Text
  pub preview_port : ℤ
  pub port : Text
  pub image : Text
  pub container : Text
  pub replicas : ℤ
  pub source_service : Text

-- Why a request is refused.
pub data RequestError : Type 0 where
  no_work_id bad_work_id no_workload bad_workload no_namespace namespace_refused : RequestError
  bad_image service_with_image other_namespace bad_source bad_container bad_replicas : RequestError
  bad_preview_name no_service bad_service bad_service_namespace target_refused bad_name :
      RequestError

abbrev pub max_preview_replicas : ℤ
max_preview_replicas = pos 10

-- `createSpec` of a request with an image
unfoldable pub build_spec : PreviewRequest → Text → Text → Result RequestError CreateSpec
unfolding trim_space is_image_ref eq_text is_label sanitise
build_spec r workload namespace = do
  let image = trim_space r.image
  require (is_image_ref image) bad_image
  require (eq_text (trim_space r.preview_service) []) service_with_image
  let ns = trim_space r.preview_namespace
  require (eq_text ns [] || eq_text ns namespace) other_namespace
  let source = or_else (trim_space r.source_service) workload
  require (is_label source) bad_source
  let container = trim_space r.container
  require (eq_text container [] || is_label container) bad_container
  let replicas = if eqb_ℤ r.replicas (pos 0) then pos 1 else r.replicas
  refuse (ltb_ℤ replicas (pos 0) || ltb_ℤ max_preview_replicas replicas) bad_replicas
  let name = sanitise (workload ++ (codes "-preview-" ++ trim_space r.work_id))
  require (is_label name) bad_preview_name
  ok (record {
    namespace = namespace;
    source_workload = workload;
    source_service = source;
    name = name;
    image = image;
    container = container;
    replicas = replicas;
  })

-- `createSpec`; nothing is built where no image is given
unfoldable pub create_spec : PreviewRequest → Text → Text → Result RequestError (Option CreateSpec)
unfolding trim_space eq_text build_spec
create_spec r workload namespace =
    if eq_text (trim_space r.image) []
    then ok none
    else (do spec ← build_spec r workload namespace; ok (some spec))

-- The service that is named, or built, and its namespace as far as it is given apart.
unfoldable pub forward_to : PreviewRequest → Option CreateSpec → Result RequestError (Text × Text)
unfolding trim_space eq_text
forward_to r (some c) = ok (c.name, c.namespace)
forward_to r none = do
  refuse (eq_text (trim_space r.preview_service) []) no_service
  ok (trim_space r.preview_service, trim_space r.preview_namespace)

abbrev pub is_none {ℓ} : {A : Type ℓ} → Option A → Bool
is_none none = true
is_none (some a) = false

-- `validate`; `allowed` are the allowed namespaces and `header` the name of the header
unfoldable pub validate : PreviewRequest → List Text → Text → Result RequestError Preview
unfolding trim_space eq_text is_work_id is_label contains create_spec forward_to split_target
    sanitise
validate r allowed header = do
  let work_id = trim_space r.work_id
  refuse (eq_text work_id []) no_work_id
  require (is_work_id work_id) bad_work_id
  let workload = trim_space r.workload
  let namespace = trim_space r.namespace
  refuse (eq_text workload []) no_workload
  require (is_label workload) bad_workload
  refuse (eq_text namespace []) no_namespace
  require (contains namespace allowed) namespace_refused
  create ← create_spec r workload namespace
  (given, given_ns) ← forward_to r create
  let (svc, named) = split_target given given_ns
  let svc_ns = or_else named namespace
  require (is_label svc) bad_service
  require (is_label svc_ns) bad_service_namespace
  require (contains svc_ns allowed) target_refused
  let name = sanitise (workload ++ (codes "-" ++ work_id))
  require (is_label name) bad_name
  ok (record {
    work_id = work_id;
    workload = workload;
    namespace = namespace;
    name = name;
    header_name = header;
    header_value = work_id;
    port_id = or_else (trim_space r.port) (codes "80");
    global = false;
    schedule = [];
    service_name = [];
    target_service = svc ++ (codes "." ++ svc_ns);
    target_host = [];
    target_port = if eqb_ℤ r.preview_port (pos 0) && is_none create then pos 80 else r.preview_port;
    disposition = codes "PENDING";
    message = [];
    agent_pods = [];
    agent_pods_reported = 0;
    image = [];
    raised_at = 0;
    expires_at = 0;
    create = create;
    created = none;
  })
