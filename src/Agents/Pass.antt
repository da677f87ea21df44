-- ===== src/Agents/Pass.antt =====
-- agents.go: a pass over the pool, and the end of a namespace's session.
use agentic_preview.Common.{
  ℕ, suc, Bool, true, false, List, [], ◌∷◌, ◌++◌, Option, none, some, is_some, if◌then◌else◌,
  eq_text, text_key,
}
use agentic_preview.Common.Assoc.{Assoc, get, put}
use agentic_preview.Common.Int.{pos, eqb_ℤ}
use agentic_preview.Common.Result.{Result, ok, err}
use agentic_preview.Common.Sort.{sort_texts}
use agentic_preview.Text.{Text, codes, cut}
use agentic_preview.Text.Decimal.{decimal}
use agentic_preview.Registry.{Registry, workloads, workload_list, set_agent_pods}
use agentic_preview.Session.{Session, Sessions, session_for}
use agentic_preview.Agents.{
  AgentPod, AgentConn, AgentPool, agent_key_of, pod_key_of, pods_elsewhere,
}
use agentic_preview.Agents.Plan.{judge_all, to_establish, claimed}

-- What the service asks of an agent: its version, and a dial stream for a session.
pub record Dialer (W : Type 0) : Type 0 where
  pub version : Text → W → Result Text (Unit {0}) × W
  pub watch_dial : Text → Text → W → Result Text (Unit {0}) × W
  pub hang_up : AgentConn → W → W

unfoldable pub unclaimed : Text → List Text → List Text
unfolding eq_text
unclaimed k [] = []
unclaimed k (j ∷ js) = let rest = unclaimed k js in if eq_text j k then rest else j ∷ rest

abbrev pub conn_of : AgentPod → Text → AgentConn
conn_of ai ip = record {
  agent_key = agent_key_of ai;
  pod_key = pod_key_of ai;
  pod_name = ai.pod_name;
  ns = ai.namespace;
  pod_ip = ip;
  api_port = ai.api_port;
}

-- A stream that came up; the pool keeps the tunnel that it has.
unfoldable pub tunnel_up : AgentPod → Text → Result Text (Unit {0}) → AgentPool → AgentPool
unfolding get put
tunnel_up ai ip (err e) p = p
tunnel_up ai ip (ok up) p =
    if is_some (get (pod_key_of ai) p.conns)
    then p
    else record p { conns = put (pod_key_of ai) (conn_of ai ip) p.conns }

unfoldable pub live_pods : Text → Assoc Text AgentConn → List Text
unfolding eq_text
live_pods agent [] = []
live_pods agent ((k, ac) ∷ conns) =
    let rest = live_pods agent conns in
    if eq_text ac.agent_key agent then ac.pod_name ∷ rest else rest

unfoldable pub reported_pods : Text → Assoc Text AgentPod → ℕ
unfolding eq_text
reported_pods agent [] = 0
reported_pods agent ((k, ai) ∷ rest) =
    let later = reported_pods agent rest in
    if eq_text (agent_key_of ai) agent then suc later else later

unfoldable pub publish_each : List Text → AgentPool → Registry → Registry
unfolding live_pods reported_pods set_agent_pods sort_texts
publish_each [] p r = r
publish_each (agent ∷ agents) p r =
    publish_each agents p
      (set_agent_pods r agent (sort_texts (live_pods agent p.conns)) (reported_pods agent p.latest))

-- `publish`
unfoldable pub publish : AgentPool → Registry → Registry
unfolding publish_each workload_list
publish p r = publish_each (workload_list r) p r

unfoldable pub conns_elsewhere : Text → Assoc Text AgentConn → Assoc Text AgentConn
unfolding eq_text
conns_elsewhere ns [] = []
conns_elsewhere ns ((k, ac) ∷ rest) =
    let later = conns_elsewhere ns rest in if eq_text ac.ns ns then later else (k, ac) ∷ later

unfoldable pub conns_within : Text → Assoc Text AgentConn → List AgentConn
unfolding eq_text
conns_within ns [] = []
conns_within ns ((k, ac) ∷ rest) =
    let later = conns_within ns rest in if eq_text ac.ns ns then ac ∷ later else later

-- `net.JoinHostPort`
unfoldable pub host_port : Text → Text → Text
unfolding cut
host_port ip port =
    if is_some (cut b':' ip)
    then codes "[" ++ (ip ++ (codes "]:" ++ port))
    else ip ++ (codes ":" ++ port)

module _ {W : Type 0} (d : Dialer W) (sessions : Sessions) where
  unfoldable pub dial_in : AgentPod → Text → Text → Option Session → AgentPool → W → AgentPool × W
  unfolding tunnel_up
  dial_in ai ip addr none p w = (p, w)
  dial_in ai ip addr (some s) p w =
      let (r, w1) = d.watch_dial addr s.session_id w in (tunnel_up ai ip r p, w1)

  unfoldable pub dial_versioned :
      AgentPod → Text → Text → Result Text (Unit {0}) → AgentPool → W → AgentPool × W
  unfolding session_for dial_in
  dial_versioned ai ip addr (err e) p w = (p, w)
  dial_versioned ai ip addr (ok up) p w = dial_in ai ip addr (session_for sessions ai.namespace) p w

  unfoldable pub dial_at : AgentPod → Option Text → Bool → AgentPool → W → AgentPool × W
  unfolding decimal host_port dial_versioned
  dial_at ai none no_port p w = (p, w)
  dial_at ai (some ip) true p w = (p, w)
  dial_at ai (some ip) false p w =
      let addr = host_port ip (decimal ai.api_port) in
      let (r, w1) = d.version addr w in dial_versioned ai ip addr r p w1

  -- `establish`; the claim is given up whatever happens
  unfoldable pub establish : AgentPod → AgentPool → W → AgentPool × W
  unfolding dial_at unclaimed
  establish ai p w =
      let (p1, w1) = dial_at ai ai.pod_ip (eqb_ℤ ai.api_port (pos 0)) p w in
      let done : AgentPool = record p1 {
        establishing = unclaimed (pod_key_of ai) p1.establishing;
      } in
      (done, w1)

  unfoldable pub establish_all : Assoc Text AgentPod → AgentPool → W → AgentPool × W
  unfolding establish
  establish_all [] p w = (p, w)
  establish_all ((k, ai) ∷ ais) p w = let (p1, w1) = establish ai p w in establish_all ais p1 w1

  unfoldable pub hang_up_all : List AgentConn → W → W
  hang_up_all [] w = w
  hang_up_all (ac ∷ acs) w = hang_up_all acs (d.hang_up ac w)

  -- `reconcile`
  unfoldable pub reconcile : AgentPool → Registry → W → AgentPool × Registry × W
  unfolding workloads judge_all to_establish claimed hang_up_all establish_all publish
  reconcile p r w =
      let wanted = workloads r in
      let w1 = hang_up_all (judge_all wanted p.latest p.conns).dropped w in
      let (p1, w2) = establish_all (to_establish wanted p) (claimed wanted p) w1 in
      (p1, publish p1 r, w2)

  -- `closeNamespace`
  unfoldable pub close_namespace : Text → AgentPool → Registry → W → AgentPool × Registry × W
  unfolding conns_elsewhere conns_within pods_elsewhere hang_up_all publish
  close_namespace ns p r w =
      let p1 : AgentPool = record p {
        conns = conns_elsewhere ns p.conns;
        latest = pods_elsewhere ns p.latest;
      } in
      (p1, publish p1 r, hang_up_all (conns_within ns p.conns) w)
