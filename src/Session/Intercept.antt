-- ===== src/Session/Intercept.antt =====
-- session.go and `resolveTarget` of preview.go: raising and removing an intercept. Deadlines, log
-- lines and the wake-up of the agent pool are left out.
pub mod Prepare
pub mod Raised
pub mod Obliged
use agentic_preview.Common.{
  ℕ, ◌+◌, ◌-◌, ◌%◌, Bool, true, false, not, ◌&&◌, ◌||◌, List, [], ◌∷◌, ◌++◌, Option, none, some,
  ltb, if◌then◌else◌, eq_text,
}
use agentic_preview.Common.Assoc.{Assoc, delete}
use agentic_preview.Common.Int.{ℤ, pos, negsuc, ltb_ℤ}
use agentic_preview.Common.Result.{Result, ok, err}
use agentic_preview.Text.{Text, codes, has_suffix}
use agentic_preview.Text.Decimal.{decimal}
use agentic_preview.Preview.{
  ServiceKey, service_key, same_key, Preview, key, agent_key, header_filters,
}
use agentic_preview.Registry.{Registry, all, set_status, update_all}
use agentic_preview.Session.{Session, Sessions, session_for}
use agentic_preview.Session.Manager.{
  RpcError, unknown_object, rpc_failed, rpc_message, InterceptSpec, PreparedIntercept, Disposition,
  active, waiting, other_disposition, InterceptInfo, Manager,
}
use agentic_preview.Session.Conflict.{conflicting_own_session}

-- `Disposition.String()`
unfoldable pub disposition_name : Disposition → Text
disposition_name active = codes "ACTIVE"
disposition_name waiting = codes "WAITING"
disposition_name (other_disposition name) = name

-- `int32(n)`
abbrev pub word : ℕ → ℤ
word n = if ltb n 0x80000000 then pos n else negsuc (0xffffffff - n)

unfoldable pub to_int32 : ℤ → ℤ
to_int32 (pos n) = word (n % 0x100000000)
to_int32 (negsuc n) = word (0xffffffff - n % 0x100000000)

unfoldable pub target_name : Preview → Text
unfolding has_suffix
target_name p =
    let host = p.target_service in
    let full = codes ".svc.cluster.local" in if has_suffix host full then host else host ++ full

unfoldable pub first_ip4 : Text → List (Option Text) → Result Text Text
first_ip4 host [] = err (codes "preview service " ++ (host ++ codes " resolved to no IPv4 address"))
first_ip4 host (none ∷ ips) = first_ip4 host ips
first_ip4 host (some ip ∷ ips) = ok ip

abbrev pub looked_up : Text → Result Text (List (Option Text)) → Result Text Text
looked_up host (err e) = err (codes "resolving preview service " ++ (host ++ (codes ": " ++ e)))
looked_up host (ok ips) = first_ip4 host ips

-- The registry and the caller share the preview, so the registry sees its target host.
unfoldable pub hosted : Text → ServiceKey → Preview → Preview
hosted host k p = if same_key (key p) k then record p { target_host = host } else p

unfoldable pub with_target_host : Text → ServiceKey → Registry → Registry
unfolding update_all hosted
with_target_host host k r = update_all (hosted host k) r

-- The spec that `raise` builds.
unfoldable pub spec_of : Text → Preview → Text → InterceptSpec
unfolding header_filters to_int32
spec_of client_name p host = record {
  name = p.name;
  client = client_name;
  agent = p.workload;
  namespace = p.namespace;
  target_host = host;
  target_port = to_int32 p.target_port;
  port_identifier = p.port_id;
  header_filters = header_filters p;
  service_name = p.service_name;
  service_port_name = [];
  service_port = pos 0;
  container_name = [];
  workload_kind = [];
}

abbrev pub is_given : Text → Bool
is_given [] = false
is_given (c ∷ s) = true

-- The facts that PrepareIntercept returns, folded back into the spec.
unfoldable pub folded : InterceptSpec → PreparedIntercept → InterceptSpec
unfolding decimal
folded spec pi =
    let named =
      if ltb_ℤ (pos 0) pi.service_port || is_given pi.service_port_name
      then record spec {
        service_port_name = pi.service_port_name;
        service_port = pi.service_port;
        port_identifier =
            if is_given pi.service_port_name then pi.service_port_name else decimal pi.service_port;
      }
      else spec in
    record named {
      container_name = pi.container_name;
      service_name = pi.service_name;
      workload_kind = pi.workload_kind;
    }

abbrev pub prepare_failed : Text → Text
prepare_failed e = codes "PrepareIntercept: " ++ e

-- What PrepareIntercept answered: an error in the answer counts as an error of the call.
unfoldable pub prepared : Result RpcError PreparedIntercept → Result Text PreparedIntercept
prepared (err e) = err (rpc_message e)
prepared (ok pi) = if is_given pi.error then err pi.error else ok pi

-- `departSession`
unfoldable pub departed : Result RpcError (Unit {0}) → Result Text (Unit {0})
departed (ok done) = ok tt
departed (err (unknown_object e)) = ok tt
departed (err (rpc_failed e)) = err e

unfoldable pub still_failed : Result Text PreparedIntercept → Result Text PreparedIntercept
still_failed (err e) = err (prepare_failed e)
still_failed (ok pi) = ok pi

abbrev pub not_departed : Text → Text → Text → Text
not_departed e stale why =
    prepare_failed e
    ++ (codes " (departing stale session " ++ (stale ++ (codes ": " ++ (why ++ codes ")"))))

module _ {W : Type 0} (m : Manager W) where
  -- The second attempt of `prepare`, behind the departure.
  unfoldable pub prepare_again :
      Text
      → InterceptSpec
      → Text
      → Text
      → Result Text (Unit {0})
      → W
      → Result Text PreparedIntercept × W
  unfolding prepared still_failed
  prepare_again id spec e stale (err why) w = (err (not_departed e stale why), w)
  prepare_again id spec e stale (ok done) w =
      let (pi, w1) = m.prepare_intercept id spec w in (still_failed (prepared pi), w1)

  unfoldable pub prepare_unblocked :
      Text → InterceptSpec → Text → Option Text → W → Result Text PreparedIntercept × W
  unfolding departed prepare_again
  prepare_unblocked id spec e none w = (err (prepare_failed e), w)
  prepare_unblocked id spec e (some stale) w =
      let (r, w1) = m.depart stale w in prepare_again id spec e stale (departed r) w1

  unfoldable pub prepare_first :
      Text
      → Sessions
      → Text
      → InterceptSpec
      → Result Text PreparedIntercept
      → W
      → Result Text PreparedIntercept × W
  unfolding conflicting_own_session prepare_unblocked
  prepare_first client sessions id spec (ok pi) w = (ok pi, w)
  prepare_first client sessions id spec (err e) w =
      prepare_unblocked id spec e (conflicting_own_session client sessions e) w

  -- `prepare`
  unfoldable pub prepare :
      Text → Sessions → Text → InterceptSpec → W → Result Text PreparedIntercept × W
  unfolding prepared prepare_first
  prepare client sessions id spec w =
      let (pi, w1) = m.prepare_intercept id spec w in
      prepare_first client sessions id spec (prepared pi) w1

  -- `resolveTarget`
  unfoldable pub resolve_target : Preview → W → Result Text Text × W
  unfolding target_name first_ip4
  resolve_target p w =
      let (ips, w1) = m.lookup_ip (target_name p) w in (looked_up (target_name p) ips, w1)

  unfoldable pub raise_created :
      Preview → Registry → Result RpcError InterceptInfo → W → Result Text (Unit {0}) × Registry × W
  unfolding set_status disposition_name
  raise_created p r (err e) w = (err (codes "CreateIntercept: " ++ rpc_message e), r, w)
  raise_created p r (ok ii) w =
      (ok tt, set_status r p.name (disposition_name ii.disposition) ii.message, w)

  unfoldable pub raise_prepared :
      Text
      → Preview
      → InterceptSpec
      → Registry
      → Result Text PreparedIntercept
      → W
      → Result Text (Unit {0}) × Registry × W
  unfolding folded raise_created
  raise_prepared id p spec r (err e) w = (err e, r, w)
  raise_prepared id p spec r (ok pi) w =
      let (ii, w1) = m.create_intercept id (folded spec pi) w in raise_created p r ii w1

  unfoldable pub raise_resolved :
      Text
      → Sessions
      → Text
      → Preview
      → Registry
      → Result Text Text
      → W
      → Result Text (Unit {0}) × Registry × W
  unfolding with_target_host spec_of prepare raise_prepared
  raise_resolved client sessions id p r (err e) w = (err e, r, w)
  raise_resolved client sessions id p r (ok host) w =
      let spec = spec_of client p host in
      let (pi, w1) = prepare client sessions id spec w in
      raise_prepared id p spec (with_target_host host (key p) r) pi w1

  abbrev pub no_session : Preview → Text
  no_session p = codes "no manager session for namespace " ++ p.namespace

  unfoldable pub raise_in :
      Text
      → Sessions
      → Option Session
      → Preview
      → Registry
      → W
      → Result Text (Unit {0}) × Registry × W
  unfolding resolve_target raise_resolved
  raise_in client sessions none p r w = (err (no_session p), r, w)
  raise_in client sessions (some s) p r w =
      let (host, w1) = resolve_target p w in raise_resolved client sessions s.session_id p r host w1

  -- `raise`; `client` is the configured name of this service
  unfoldable pub raise :
      Text → Sessions → Preview → Registry → W → Result Text (Unit {0}) × Registry × W
  unfolding raise_in session_for
  raise client sessions p r w = raise_in client sessions (session_for sessions p.namespace) p r w
