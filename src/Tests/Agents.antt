-- ===== src/Tests/Agents.antt =====
-- agents.go: an agent pod that came back with another address.
use agentic_preview.Common.{ℕ, suc, ◌≡◌, refl, [], ◌∷◌, some}
use agentic_preview.Common.Int.{pos}
use agentic_preview.Text.{codes}
use agentic_preview.Agents.{AgentPod, AgentConn, AgentPool}
use agentic_preview.Agents.Plan.{to_establish}
use agentic_preview.Agents.Pass.{Dialer}
use agentic_preview.Common.Result.{ok}
use agentic_preview.Preview.{Preview, key}
use agentic_preview.Registry.{Registry}
use agentic_preview.Session.{Sessions}
use agentic_preview.Tests.Samples.{checkout}

abbrev moved : AgentPod
moved = record {
  pod_name = codes "a-0";
  workload_name = codes "pricing";
  namespace = codes "shop";
  pod_ip = some (codes "10.0.0.9");
  api_port = pos 9001;
}

abbrev stale : AgentConn
stale = record {
  agent_key = codes "pricing.shop";
  pod_key = codes "a-0.shop";
  pod_name = codes "a-0";
  ns = codes "shop";
  pod_ip = codes "10.0.0.8";
  api_port = pos 9001;
}

abbrev pool : AgentPool
pool = record {
  conns = (codes "a-0.shop", stale) ∷ [];
  latest = (codes "a-0.shop", moved) ∷ [];
  establishing = [];
}

dialled_twice :
    to_establish (codes "pricing.shop" ∷ []) pool
    ≡ (codes "a-0.shop", moved) ∷ (codes "a-0.shop", moved) ∷ []
unfolding to_establish
dialled_twice = refl

-- Every agent answers, and the world counts the dial streams.
abbrev counted : Dialer ℕ
counted = record {
  version = λ addr w. (ok tt, w);
  watch_dial = λ addr id w. (ok tt, suc w);
  hang_up = λ ac w. w;
}

abbrev in_shop : Sessions
in_shop = (codes "shop", record { namespace = codes "shop"; session_id = codes "live" }) ∷ []

abbrev pricing : Preview
pricing = record checkout { workload = codes "pricing" }

abbrev priced : Registry
priced = (key pricing, pricing) ∷ []
