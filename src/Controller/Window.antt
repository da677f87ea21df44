-- ===== src/Controller/Window.antt =====
-- schedule_controller.go and `preview` of schedule.go: the window of an intercept schedule opened,
-- checked and closed. Cancellation is left out, and the clock is read once in a tick.
pub mod Kept
pub mod Shown
pub mod Live
use agentic_preview.Common.{
  ℕ, length, ◌+◌, ◌-◌, Bool, true, false, not, ◌&&◌, ◌||◌, List, [], ◌∷◌, ◌++◌, Option, none, some,
  ltb, leb, ◌==◌, if◌then◌else◌,
}
use agentic_preview.Common.Assoc.{get, delete}
use agentic_preview.Common.Int.{ℤ, pos}
use agentic_preview.Common.Result.{Result, ok, err}
use agentic_preview.Text.{Text, codes}
use agentic_preview.Text.Decimal.{decimal}
use agentic_preview.Preview.{ServiceKey, service_key, Preview, key}
use agentic_preview.Registry.{Registry, add, conflicting_mode, set_status}
use agentic_preview.Schedule.{Schedule, target}
use agentic_preview.Session.{Session, Sessions, session_for}
use agentic_preview.Session.Manager.{
  RpcError, unknown_object, rpc_failed, Disposition, active, waiting, other_disposition,
  InterceptInfo, Manager,
}
use agentic_preview.Session.Intercept.{raise, disposition_name}
use agentic_preview.Session.Teardown.{remove}
use agentic_preview.Controller.{ScheduleState, alarm}

-- `(*schedule).key`
abbrev pub schedule_key : Schedule → ServiceKey
schedule_key sc = record {
  work_id = sc.spec.name;
  namespace = sc.spec.namespace;
  workload = sc.spec.workload;
}

-- `(*schedule).preview`
unfoldable pub schedule_preview : Schedule → Preview
unfolding target
schedule_preview sc = record {
  work_id = sc.spec.name;
  workload = sc.spec.workload;
  namespace = sc.spec.namespace;
  name = sc.intercept_name;
  header_name = [];
  header_value = [];
  port_id = sc.port_id;
  global = true;
  schedule = sc.spec.name;
  service_name = sc.spec.service;
  target_service = target sc;
  target_host = [];
  target_port = sc.target_port;
  disposition = codes "PENDING";
  message = [];
  agent_pods = [];
  agent_pods_reported = 0;
  image = [];
  raised_at = 0;
  expires_at = 0;
  create = none;
  created = none;
}

abbrev pub raise_grace : ℕ
raise_grace = 90_000_000_000

abbrev pub no_session_yet : Text → Text
no_session_yet ns = codes "no manager session for namespace " ++ (ns ++ codes " yet; will retry")

abbrev pub session_gone : Text → Text
session_gone ns =
    codes "manager session for namespace "
    ++ (ns ++ codes " is gone; the intercept will be re-raised when it returns")

unfoldable pub refusal : Schedule → Preview → Text
refusal sc other =
    codes "REFUSING to open: "
    ++ (sc.spec.workload
        ++ (codes "."
            ++ (sc.spec.namespace
                ++ (codes " already carries the header-keyed preview \""
                    ++ (other.name
                        ++ (codes "\" (work id "
                            ++ (other.work_id
                                ++ (codes ", "
                                    ++ (other.header_name
                                        ++ (codes ": "
                                            ++ (other.header_value
                                                ++ (codes
                                                      "). A workload runs in ONE intercept mode at a time: with a header filter live the agent's port is in HTTP mode, and this headerless intercept would match nothing while reporting itself healthy. Remove that preview (DELETE /previews/"
                                                    ++ (other.work_id
                                                        ++ codes
                                                            ") or take this workload off the schedule")))))))))))))

unfoldable pub no_tunnel : Preview → Text
no_tunnel p =
    codes "intercept "
    ++ (p.name
        ++ (codes " is ACTIVE but no node-agent tunnel is established: requests to "
            ++ (p.workload
                ++ (codes "."
                    ++ (p.namespace
                        ++ codes
                            " are being held rather than answered. Check the node-agent Job")))))

unfoldable pub few_tunnels : Preview → Text
unfolding decimal
few_tunnels p =
    codes "intercept "
    ++ (p.name
        ++ (codes " is ACTIVE on "
            ++ (decimal (pos p.agent_pods_reported)
                ++ (codes " agent pod(s) of "
                    ++ (p.workload
                        ++ (codes "."
                            ++ (p.namespace
                                ++ (codes " but only "
                                    ++ (decimal (pos (length p.agent_pods))
                                        ++ codes
                                            " tunnel(s) are established: requests reaching the other replica(s) are being held rather than answered. Check the node-agent Jobs")))))))))

-- The alarms of an intercept that is not up.
abbrev pub down : ScheduleState → ℕ → Text → ScheduleState
down st now problem = alarm (record st { up = false }) now problem

-- What an intercept that reports itself active means: some or all of its tunnels can be missing.
unfoldable pub active_state : ScheduleState → ℕ → Preview → ScheduleState
unfolding alarm no_tunnel few_tunnels
active_state st now p =
    let late = ltb raise_grace (now - st.raised_at) in
    let n = length p.agent_pods in
    if n == 0 && late
    then down st now (no_tunnel p)
    else if ltb 0 n && (ltb n p.agent_pods_reported && late)
    then down st now (few_tunnels p)
    else record st { up = true; problem = []; last_alarm = 0 }

abbrev pub raised_again : ScheduleState → ScheduleState
raised_again st = record st { up = false; re_raises = st.re_raises + 1 }

unfoldable pub close_removed : ScheduleState → Result Text (Unit {0}) → ScheduleState
close_removed st (err e) = record st { up = false; problem = codes "closing: " ++ e }
close_removed st (ok done) = record st { up = false; problem = [] }

module _ {W : Type 0} (m : Manager W) (client : Text) (sessions : Sessions) (sc : Schedule) where
  unfoldable pub open_raised :
      ScheduleState → ℕ → Result Text (Unit {0}) → Registry → W → ScheduleState × Registry × W
  unfolding alarm delete schedule_preview
  open_raised st now (err e) r w =
      (down st now (codes "raising: " ++ e), delete (key (schedule_preview sc)) r, w)
  open_raised st now (ok done) r w =
      let up_now : ScheduleState = record st {
        up = true;
        problem = [];
        last_alarm = 0;
        raised_at = now;
        raises = st.raises + 1;
      } in
      (up_now, r, w)

  unfoldable pub open_registered :
      ScheduleState → ℕ → Registry → Result Text Registry → W → ScheduleState × Registry × W
  unfolding alarm raise schedule_preview open_raised
  open_registered st now r (err e) w = (down st now (codes "registering: " ++ e), r, w)
  open_registered st now r (ok r1) w =
      let (done, r2, w1) = raise m client sessions (schedule_preview sc) r1 w in
      open_raised st now done r2 w1

  unfoldable pub open_unblocked :
      ScheduleState → ℕ → Registry → Option Preview → W → ScheduleState × Registry × W
  unfolding alarm refusal add schedule_preview open_registered
  open_unblocked st now r (some other) w = (down st now (refusal sc other), r, w)
  open_unblocked st now r none w = open_registered st now r (add r (schedule_preview sc) now) w

  unfoldable pub open_in :
      Option Session → ScheduleState → ℕ → Registry → W → ScheduleState × Registry × W
  unfolding alarm conflicting_mode schedule_preview open_unblocked
  open_in none st now r w = (down st now (no_session_yet sc.spec.namespace), r, w)
  open_in (some s) st now r w = open_unblocked st now r (conflicting_mode r (schedule_preview sc)) w

  -- `openWindow`
  unfoldable pub open_window : ScheduleState → ℕ → Registry → W → ScheduleState × Registry × W
  unfolding session_for open_in
  open_window st now r w = open_in (session_for sessions sc.spec.namespace) st now r w

  -- Torn down and raised once more.
  unfoldable pub rebuild : Preview → ScheduleState → ℕ → Registry → W → ScheduleState × Registry × W
  unfolding delete remove open_window
  rebuild p st now r w =
      let r1 = delete (key p) r in
      let (done, w1) = remove m sessions r1 p w in open_window (raised_again st) now r1 w1

  unfoldable pub check_disposition :
      Preview → Disposition → ScheduleState → ℕ → Registry → W → ScheduleState × Registry × W
  unfolding active_state rebuild
  check_disposition p active st now r w = (active_state st now p, r, w)
  check_disposition p waiting st now r w =
      let again = rebuild p st now r w in
      if leb (now - st.raised_at) raise_grace then (record st { up = true }, r, w) else again
  check_disposition p (other_disposition name) st now r w = rebuild p st now r w

  unfoldable pub check_answer :
      Preview
      → Result RpcError InterceptInfo
      → ScheduleState
      → ℕ
      → Registry
      → W
      → ScheduleState × Registry × W
  unfolding delete open_window alarm set_status disposition_name check_disposition
  check_answer p (err (unknown_object e)) st now r w =
      open_window (raised_again st) now (delete (key p) r) w
  check_answer p (err (rpc_failed e)) st now r w =
      (alarm st now (codes "GetIntercept: " ++ e), r, w)
  check_answer p (ok ii) st now r w =
      let r1 = set_status r p.name (disposition_name ii.disposition) ii.message in
      check_disposition p ii.disposition st now r1 w

  unfoldable pub check_in :
      Preview → Option Session → ScheduleState → ℕ → Registry → W → ScheduleState × Registry × W
  unfolding alarm check_answer
  check_in p none st now r w = (down st now (session_gone p.namespace), r, w)
  check_in p (some s) st now r w =
      let (ii, w1) = m.get_intercept s.session_id p.name w in check_answer p ii st now r w1

  unfoldable pub check_held :
      Option Preview → ScheduleState → ℕ → Registry → W → ScheduleState × Registry × W
  unfolding session_for check_in
  check_held none st now r w = (st, r, w)
  check_held (some p) st now r w = check_in p (session_for sessions p.namespace) st now r w

  -- `checkWindow`
  unfoldable pub check_window : ScheduleState → ℕ → Registry → W → ScheduleState × Registry × W
  unfolding get check_held
  check_window st now r w = check_held (get (schedule_key sc) r) st now r w

  unfoldable pub close_held :
      Option Preview → ScheduleState → Registry → W → ScheduleState × Registry × W
  unfolding delete remove close_removed
  close_held none st r w = (st, r, w)
  close_held (some p) st r w =
      let r1 = delete (schedule_key sc) r in
      let (done, w1) = remove m sessions r1 p w in (close_removed st done, r1, w1)

  -- `closeWindow`
  unfoldable pub close_window : ScheduleState → Registry → W → ScheduleState × Registry × W
  unfolding get close_held
  close_window st r w = close_held (get (schedule_key sc) r) st r w

  -- The last step of `reconcileSchedule`, by what is wanted and what is held.
  unfoldable pub settle :
      Bool → Bool → ScheduleState → ℕ → Registry → W → ScheduleState × Registry × W
  unfolding open_window check_window close_window
  settle true false st now r w = open_window st now r w
  settle true true st now r w = check_window st now r w
  settle false true st now r w = close_window st r w
  settle false false st now r w = (record st { up = false; problem = [] }, r, w)
