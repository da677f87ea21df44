-- ===== src/Session/Teardown.antt =====
-- session.go: removing an intercept, raising a namespace's intercepts again, and the end of the
-- process. Cancellation is left out: a loop goes through its whole list.
use agentic_preview.Common.{
  Bool, true, false, List, [], ◌∷◌, ◌++◌, Option, none, some, if◌then◌else◌, eq_text,
}
use agentic_preview.Common.Assoc.{delete}
use agentic_preview.Common.Result.{Result, ok, err}
use agentic_preview.Text.{Text, codes}
use agentic_preview.Preview.{service_key, Preview, key, agent_key}
use agentic_preview.Registry.{Registry, all, set_status}
use agentic_preview.Session.{Session, Sessions, session_for, all_sessions}
use agentic_preview.Session.Manager.{RpcError, unknown_object, rpc_failed, Manager}
use agentic_preview.Session.Intercept.{no_session, raise}

unfoldable pub any_of_agent : Text → List Preview → Bool
unfolding eq_text
any_of_agent agent [] = false
any_of_agent agent (o ∷ os) =
    let later = any_of_agent agent os in if eq_text (agent_key o) agent then true else later

-- `workloadStillPreviewed`
unfoldable pub workload_still_previewed : Registry → Preview → Bool
unfolding any_of_agent all
workload_still_previewed r p = any_of_agent (agent_key p) (all r)

-- The first error of `remove`; an intercept that the manager does not know is removed already.
unfoldable pub first_error : Preview → Result RpcError (Unit {0}) → Result Text (Unit {0})
first_error p (ok done) = ok tt
first_error p (err (unknown_object e)) = ok tt
first_error p (err (rpc_failed e)) = err (codes "RemoveIntercept " ++ (p.name ++ (codes ": " ++ e)))

module _ {W : Type 0} (m : Manager W) where
  -- Whatever ReleaseAgent answers is only logged.
  unfoldable pub release : Text → Preview → Bool → W → W
  release id p true w = w
  release id p false w = (m.release_agent id p.workload p.namespace w).1

  unfoldable pub remove_in : Option Session → Registry → Preview → W → Result Text (Unit {0}) × W
  unfolding first_error workload_still_previewed release
  remove_in none r p w = (err (no_session m p), w)
  remove_in (some s) r p w =
      let (e, w1) = m.remove_intercept s.session_id p.name w in
      (first_error p e, release s.session_id p (workload_still_previewed r p) w1)

  -- `remove`
  unfoldable pub remove : Sessions → Registry → Preview → W → Result Text (Unit {0}) × W
  unfolding remove_in session_for
  remove sessions r p w = remove_in (session_for sessions p.namespace) r p w

  abbrev pub report : Preview → Result Text (Unit {0}) → Registry → Registry
  report p (ok done) r = r
  report p (err e) r = set_status r p.name (codes "ERROR") e

  unfoldable pub raise_each : Text → Sessions → List Preview → Registry → W → Registry × W
  unfolding raise set_status
  raise_each client sessions [] r w = (r, w)
  raise_each client sessions (p ∷ ps) r w =
      let (done, r1, w1) = raise m client sessions p r w in
      raise_each client sessions ps (report p done r1) w1

  unfoldable pub in_namespace : Text → List Preview → List Preview
  unfolding eq_text
  in_namespace ns [] = []
  in_namespace ns (p ∷ ps) =
      let rest = in_namespace ns ps in if eq_text p.namespace ns then p ∷ rest else rest

  -- `reraiseAll`
  unfoldable pub reraise_all : Text → Sessions → Text → Registry → W → Registry × W
  unfolding raise_each in_namespace all
  reraise_all client sessions ns r w = raise_each client sessions (in_namespace ns (all r)) r w

  unfoldable pub remove_each : Sessions → List Preview → Registry → W → Registry × W
  unfolding remove delete
  remove_each sessions [] r w = (r, w)
  remove_each sessions (p ∷ ps) r w =
      let r1 = delete (key p) r in
      let (done, w1) = remove sessions r1 p w in remove_each sessions ps r1 w1

  unfoldable pub depart_each : List Session → W → W
  depart_each [] w = w
  depart_each (s ∷ ss) w = depart_each ss (m.depart s.session_id w).1

  unfoldable pub shut_down : List Session → Sessions → Registry → W → Registry × W
  unfolding remove_each depart_each all
  shut_down [] sessions r w = (r, w)
  shut_down (s ∷ ss) sessions r w =
      let (r1, w1) = remove_each sessions (all r) r w in (r1, depart_each (s ∷ ss) w1)

  -- `Shutdown`, but for the file of recorded sessions
  unfoldable pub shutdown : Sessions → List Text → Registry → W → Registry × W
  unfolding shut_down all_sessions
  shutdown sessions allowed r w = shut_down (all_sessions sessions allowed) sessions r w
