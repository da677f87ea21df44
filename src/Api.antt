-- ===== src/Api.antt =====
-- api.go: what the API does to the registry. An answer is its status and its message, or the key of the
-- preview that it reports; the decoding of requests and the encoding of answers are left out, and the
-- clock is read once in a request.
pub mod Remove
pub mod Steady
use agentic_preview.Common.{
  ℕ, ◌+◌, Bool, true, false, not, ◌&&◌, List, [], ◌∷◌, ◌++◌, Option, none, some, is_some, ◌==◌,
  if◌then◌else◌, eq_text,
}
use agentic_preview.Common.Assoc.{get, delete}
use agentic_preview.Common.Int.{eqb_ℤ}
use agentic_preview.Common.Result.{Result, ok, err}
use agentic_preview.Common.Sort.{contains}
use agentic_preview.Text.{Text, codes}
use agentic_preview.Preview.{ServiceKey, service_key, Preview, CreateSpec, key}
use agentic_preview.Registry.{Registry, add, conflicting_mode, touch}
use agentic_preview.Schedule.{Schedule}
use agentic_preview.Request.{PreviewRequest, RequestError, validate}
use agentic_preview.Session.{Session, Sessions, session_for}
use agentic_preview.Session.Manager.{Manager}
use agentic_preview.Session.Intercept.{raise}
use agentic_preview.Session.Teardown.{remove}
use agentic_preview.Workload.Build.{CreateError, bad_request, failed}
use agentic_preview.Workload.Create.{CreateConfig, Building, create_workload}

pub data Reply : Type 0 where
  raised rolled unchanged : ServiceKey → Reply
  invalid : RequestError → Reply
  refused : ℕ → Text → Reply

-- `scheduledNames`
unfoldable pub scheduled_names : List Schedule → List Text
scheduled_names [] = []
scheduled_names (sc ∷ scs) = sc.spec.name ∷ scheduled_names scs

-- The part of `config` that the handlers read.
pub record ApiConfig : Type 0 where
  pub create : CreateConfig
  pub header_name : Text
  pub lifetime : ℕ
  pub schedules : List Schedule

-- `extend`
unfoldable pub extend : ApiConfig → ℕ → Text → Registry → Registry
unfolding touch
extend cfg now work_id r = if cfg.lifetime == 0 then r else touch r work_id (now + cfg.lifetime)

abbrev pub reserved : Preview → Text
reserved p =
    codes "workId \""
    ++ (p.work_id
        ++ codes
            "\" is the name of a declared scheduled intercept and is reserved; use a different work id")

unfoldable pub held_by : Preview → Preview → Text
held_by p other =
    p.workload
    ++ (codes "."
        ++ (p.namespace
            ++ (codes " is currently held by the scheduled global intercept \""
                ++ (other.name
                    ++ (codes "\" (schedule "
                        ++ (other.schedule
                            ++ codes
                                "), which diverts ALL traffic to that port. A workload runs in ONE intercept mode at a time, so a header-keyed preview raised now would match nothing. Wait for that schedule's window to close, or take the workload off the schedule"))))))

-- The target and the port are the old ones.
unfoldable pub same_target : Preview → Preview → Bool
unfolding eq_text
same_target prev p =
    eq_text prev.target_service p.target_service
    && (eqb_ℤ prev.target_port p.target_port && eq_text prev.port_id p.port_id)

abbrev pub carried : Preview → Preview → Preview
carried prev p = record p {
  disposition = prev.disposition;
  message = prev.message;
  agent_pods = prev.agent_pods;
  agent_pods_reported = prev.agent_pods_reported;
}

abbrev pub create_code : CreateError → ℕ
create_code (bad_request e) = 400
create_code (failed e) = 502

abbrev pub create_text : CreateError → Text
create_text (bad_request e) = e
create_text (failed e) = e

module _ {W X : Type 0} (m : Manager W) (k : Building W X) (client : Text) (sessions : Sessions)
    (cfg : ApiConfig) (now : ℕ) where
  unfoldable pub add_raised : Preview → Result Text (Unit {0}) → Registry → W → Reply × Registry × W
  unfolding delete extend
  add_raised p (err e) r w = (refused 502 e, delete (key p) r, w)
  add_raised p (ok done) r w = (raised (key p), extend cfg now p.work_id r, w)

  unfoldable pub add_registered :
      Preview → Registry → Result Text Registry → W → Reply × Registry × W
  unfolding raise add_raised
  add_registered p r (err e) w = (refused 409 e, r, w)
  add_registered p r (ok r1) w =
      let (done, r2, w1) = raise m client sessions p r1 w in add_raised p done r2 w1

  unfoldable pub add_rolled : Preview → Registry → Result Text Registry → W → Reply × Registry × W
  unfolding extend
  add_rolled p r (err e) w = (refused 409 e, r, w)
  add_rolled p r (ok r1) w = (rolled (key p), extend cfg now p.work_id r1, w)

  -- A preview whose key is taken: by whether the target is the same, and the image.
  unfoldable pub add_over : Preview → Preview → Bool → Bool → Registry → W → Reply × Registry × W
  unfolding extend add add_rolled delete remove add_registered
  add_over prev p true true r w = (unchanged (key prev), extend cfg now p.work_id r, w)
  add_over prev p true false r w = let q = carried prev p in add_rolled q r (add r q now) w
  add_over prev p false b r w =
      let r1 = delete (key prev) r in
      let (done, w1) = remove m sessions r1 prev w in add_registered p r1 (add r1 p now) w1

  unfoldable pub add_to : Preview → Option Preview → Registry → W → Reply × Registry × W
  unfolding add_registered add add_over same_target eq_text
  add_to p none r w = add_registered p r (add r p now) w
  add_to p (some prev) r w = add_over prev p (same_target prev p) (eq_text prev.image p.image) r w

  unfoldable pub add_created :
      Registry → Result CreateError (Unit {0}) × Preview × W → Reply × Registry × W
  unfolding get add_to
  add_created r (err e, p, w) = (refused (create_code e) (create_text e), r, w)
  add_created r (ok done, p, w) = add_to p (get (key p) r) r w

  unfoldable pub add_building : Preview → Option CreateSpec → Registry → W → Reply × Registry × W
  unfolding add_created create_workload
  add_building p none r w = add_created r (ok tt, p, w)
  add_building p (some spec) r w = add_created r (create_workload cfg.create k spec p w)

  unfoldable pub add_in : Preview → Option Session → Registry → W → Reply × Registry × W
  unfolding add_building
  add_in p none r w = (
    refused 503 (codes "no manager session for namespace " ++ (p.namespace ++ codes " yet")),
    r,
    w,
  )
  add_in p (some s) r w = add_building p p.create r w

  unfoldable pub add_single : Preview → Option Preview → Registry → W → Reply × Registry × W
  unfolding held_by session_for add_in
  add_single p (some other) r w = (refused 409 (held_by p other), r, w)
  add_single p none r w = add_in p (session_for sessions p.namespace) r w

  unfoldable pub add_unreserved : Preview → Bool → Registry → W → Reply × Registry × W
  unfolding conflicting_mode add_single
  add_unreserved p true r w = (refused 409 (reserved p), r, w)
  add_unreserved p false r w = add_single p (conflicting_mode r p) r w

  unfoldable pub add_validated : Result RequestError Preview → Registry → W → Reply × Registry × W
  unfolding contains scheduled_names add_unreserved
  add_validated (err e) r w = (invalid e, r, w)
  add_validated (ok p) r w =
      add_unreserved p (contains p.work_id (scheduled_names cfg.schedules)) r w

  -- `handleAdd`, of a request that decodes
  unfoldable pub handle_add : PreviewRequest → Registry → W → Reply × Registry × W
  unfolding validate add_validated
  handle_add request r w =
      add_validated (validate request cfg.create.allowed_namespaces cfg.header_name) r w
