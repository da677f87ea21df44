-- ===== src/Tests/Api.antt =====
-- api.go: a request to raise a preview of a live workload.
use agentic_preview.Common.{ℕ, ◌≡◌, refl, true, inl, [], ◌∷◌, none, some}
use agentic_preview.Common.Assoc.{get}
use agentic_preview.Common.Int.{pos}
use agentic_preview.Common.Result.{ok}
use agentic_preview.Text.{codes}
use agentic_preview.Preview.{key}
use agentic_preview.Registry.{Registry}
use agentic_preview.Registry.Steady.{IsSteady}
use agentic_preview.Request.{PreviewRequest}
use agentic_preview.Session.{Sessions}
use agentic_preview.Session.Manager.{Manager}
use agentic_preview.Workload.Create.{Building, no_builder}
use agentic_preview.Api.{Reply, refused, ApiConfig, handle_add}
use agentic_preview.Api.Steady.{handle_add-IsSteady}
use agentic_preview.Tests.Samples.{checkout, prepared_sample, running}

abbrev answering : Manager (Unit {0})
answering = record {
  prepare_intercept = λ id spec w. (ok prepared_sample, w);
  create_intercept = λ id spec w. (ok running, w);
  get_intercept = λ id name w. (ok running, w);
  remove_intercept = λ id name w. (ok tt, w);
  release_agent = λ id workload ns w. (ok tt, w);
  depart = λ id w. (ok tt, w);
  lookup_ip = λ host w. (ok (some (codes "10.0.0.7") ∷ []), w);
}

abbrev open_session : Sessions
open_session = (codes "shop", record { namespace = codes "shop"; session_id = codes "live" }) ∷ []

abbrev no_cluster : Building (Unit {0}) (Unit {0})
no_cluster = no_builder (codes "off")

abbrev api : ApiConfig
api = record {
  create = record { allowed_namespaces = codes "shop" ∷ []; ready_ticks = none };
  header_name = codes "x-preview";
  lifetime = 100;
  schedules = [];
}

abbrev request : PreviewRequest
request = record {
  work_id = codes "AB-1";
  workload = codes "pricing";
  namespace = codes "shop";
  port = [];
  preview_service = codes "pricing-pr";
  preview_namespace = [];
  preview_port = pos 0;
  image = [];
  container = [];
  replicas = pos 0;
  source_service = [];
}

-- The workload is held by a scheduled intercept.
abbrev holding : Registry
holding =
    (
      record { work_id = codes "nightly"; namespace = codes "shop"; workload = codes "pricing" },
      record checkout {
        work_id = codes "nightly";
        workload = codes "pricing";
        name = codes "sched-nightly";
        global = true;
        schedule = codes "nightly";
      },
    )
    ∷ []

abbrev is_refused : Reply → ℕ
is_refused (refused code e) = code
is_refused other = 0

refused_conflict :
    is_refused
      (handle_add answering no_cluster (codes "agentic") open_session api 7 request holding tt).0
    ≡ 409
unfolding handle_add
refused_conflict = refl

abbrev held_checkout : Registry
held_checkout = (key checkout, checkout) ∷ []

held_checkout-IsSteady : IsSteady held_checkout
unfolding get
held_checkout-IsSteady = record {
  is_registry = record { distinct = (refl, tt); keyed = (refl, tt); names = (tt, tt) };
  single_mode = (tt, tt);
  scheduled_live = (inl refl, tt);
}

raised_reply :
    is_refused
      (handle_add answering no_cluster
        (codes "agentic")
        open_session
        api
        7
        request
        held_checkout
        tt).0
    ≡ 0
unfolding handle_add
raised_reply = refl

handle_add-IsSteady_example :
    IsSteady
      (handle_add answering no_cluster
        (codes "agentic")
        open_session
        api
        7
        request
        held_checkout
        tt).1
handle_add-IsSteady_example =
    handle_add-IsSteady answering no_cluster (codes "agentic") open_session api 7 request
      held_checkout tt held_checkout-IsSteady
