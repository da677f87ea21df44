-- ===== src/Agents.antt =====
-- agents.go: the pool of tunnels to the agent pods. The dialling of an agent (third-party gRPC) is a
-- parameter; the loops that run on a tunnel are left out, and a pass is one step.
pub mod Plan
pub mod Pass
pub mod Renewed
pub mod Redial
use agentic_preview.Common.{
  ℕ, suc, ◌+◌, Bool, true, false, not, ◌&&◌, ◌||◌, List, [], ◌∷◌, ◌++◌, Option, none, some, is_some,
  if◌then◌else◌, eq_text, text_key,
}
use agentic_preview.Common.Assoc.{Assoc, get, put, delete}
use agentic_preview.Common.Int.{ℤ, pos, eqb_ℤ}
use agentic_preview.Common.Result.{Result, ok, err}
use agentic_preview.Common.Sort.{sort_texts, contains}
use agentic_preview.Text.{Text, codes}
use agentic_preview.Text.Decimal.{decimal}
use agentic_preview.Registry.{Registry, workloads, workload_list, set_agent_pods}
use agentic_preview.Session.{Session, Sessions, session_for}

-- `managerrpc.AgentPodInfo`; the address is the text of its bytes, where they are one
pub record AgentPod : Type 0 where
  pub pod_name : Text
  pub workload_name : Text
  pub namespace : Text
  pub pod_ip : Option Text
  pub api_port : ℤ

-- `agentConn`
pub record AgentConn : Type 0 where
  pub agent_key : Text
  pub pod_key : Text
  pub pod_name : Text
  pub ns : Text
  pub pod_ip : Text
  pub api_port : ℤ

unfoldable pub identity_of : Text → Text → ℤ → Text
unfolding decimal
identity_of name ip port = name ++ (codes "|" ++ (ip ++ (codes "|" ++ decimal port)))

-- `(*agentConn).identity`
unfoldable pub identity : AgentConn → Text
unfolding identity_of
identity a = identity_of a.pod_name a.pod_ip a.api_port

abbrev pub ip_text : Option Text → Text
ip_text none = codes "invalid IP"
ip_text (some ip) = ip

-- `agentIdentity`
unfoldable pub agent_identity : AgentPod → Text
unfolding identity_of
agent_identity ai = identity_of ai.pod_name (ip_text ai.pod_ip) ai.api_port

-- `agentKeyOf`
abbrev pub agent_key_of : AgentPod → Text
agent_key_of ai = ai.workload_name ++ (codes "." ++ ai.namespace)

-- `podKeyOf`
abbrev pub pod_key_of : AgentPod → Text
pod_key_of ai = ai.pod_name ++ (codes "." ++ ai.namespace)

-- `agentPool`
pub record AgentPool : Type 0 where
  pub conns : Assoc Text AgentConn
  pub latest : Assoc Text AgentPod
  pub establishing : List Text

-- `newAgentPool`
abbrev pub new_agent_pool : AgentPool
new_agent_pool = record { conns = []; latest = []; establishing = [] }

unfoldable pub pods_elsewhere : Text → Assoc Text AgentPod → Assoc Text AgentPod
unfolding eq_text
pods_elsewhere ns [] = []
pods_elsewhere ns ((k, ai) ∷ rest) =
    let later = pods_elsewhere ns rest in if eq_text ai.namespace ns then later else (k, ai) ∷ later

unfoldable pub put_pods : List AgentPod → Assoc Text AgentPod → Assoc Text AgentPod
unfolding put
put_pods [] latest = latest
put_pods (ai ∷ ais) latest = put_pods ais (put (pod_key_of ai) ai latest)

-- `replaceNamespace`
unfoldable pub replace_namespace : Text → List AgentPod → AgentPool → AgentPool
unfolding put_pods pods_elsewhere
replace_namespace ns agents p = record p { latest = put_pods agents (pods_elsewhere ns p.latest) }
