-- ===== src/Session/Manager.antt =====
-- session.go: what the service sends to the traffic-manager and reads back (a third-party gRPC
-- service), over the state of everything outside the process.
use agentic_preview.Common.{List, Option}
use agentic_preview.Common.Assoc.{Assoc}
use agentic_preview.Common.Int.{ℤ}
use agentic_preview.Common.Result.{Result}
use agentic_preview.Text.{Text}

-- An error of a call: the code NotFound or another one, with the whole message.
pub data RpcError : Type 0 where
  unknown_object rpc_failed : Text → RpcError

abbrev pub rpc_message : RpcError → Text
rpc_message (unknown_object e) = e
rpc_message (rpc_failed e) = e

-- `managerrpc.InterceptSpec`, by the fields that `raise` decides; the constants, and the
-- facts that it copies from the answer of PrepareIntercept and nothing else reads, are left out
pub record InterceptSpec : Type 0 where
  pub name : Text
  pub client : Text
  pub agent : Text
  pub namespace : Text
  pub target_host : Text
  pub target_port : ℤ
  pub port_identifier : Text
  pub header_filters : Option (Assoc Text Text)
  pub service_name : Text
  pub service_port_name : Text
  pub service_port : ℤ
  pub container_name : Text
  pub workload_kind : Text

-- `managerrpc.PreparedIntercept`
pub record PreparedIntercept : Type 0 where
  pub error : Text
  pub service_port : ℤ
  pub service_port_name : Text
  pub service_name : Text
  pub container_name : Text
  pub workload_kind : Text

-- The kinds of disposition that the service tells apart, each with its name.
pub data Disposition : Type 0 where
  active waiting : Disposition
  other_disposition : Text → Disposition

-- `managerrpc.InterceptInfo`
pub record InterceptInfo : Type 0 where
  pub disposition : Disposition
  pub message : Text

-- A session is named by its id; an address that is looked up is the text of an IPv4 address, or none.
pub record Manager (W : Type 0) : Type 0 where
  pub prepare_intercept : Text → InterceptSpec → W → Result RpcError PreparedIntercept × W
  pub create_intercept : Text → InterceptSpec → W → Result RpcError InterceptInfo × W
  pub get_intercept : Text → Text → W → Result RpcError InterceptInfo × W
  pub remove_intercept : Text → Text → W → Result RpcError (Unit {0}) × W
  pub release_agent : Text → Text → Text → W → Result RpcError (Unit {0}) × W
  pub depart : Text → W → Result RpcError (Unit {0}) × W
  pub lookup_ip : Text → W → Result Text (List (Option Text)) × W
