-- ===== src/Agents/Plan.antt =====
-- agents.go: what a pass over the pool closes and dials.
use agentic_preview.Common.{
  Bool, not, ◌&&◌, List, [], ◌∷◌, ◌++◌, Option, none, some, is_some, if◌then◌else◌, eq_text,
  text_key,
}
use agentic_preview.Common.Assoc.{Assoc, get}
use agentic_preview.Common.Sort.{contains}
use agentic_preview.Text.{Text}
use agentic_preview.Agents.{AgentPod, AgentConn, AgentPool, identity, agent_identity, agent_key_of}

-- What a pass does with a tunnel.
pub data Verdict : Type 0 where
  keep drop : Verdict
  renew : AgentPod → Verdict

abbrev pub judged_pod : AgentConn → Option AgentPod → Verdict
judged_pod ac none = drop
judged_pod ac (some ai) = if not (eq_text (agent_identity ai) (identity ac)) then renew ai else keep

unfoldable pub judged : List Text → Assoc Text AgentPod → Text → AgentConn → Verdict
unfolding contains get agent_identity identity eq_text
judged wanted latest k ac =
    if not (contains ac.agent_key wanted) then drop else judged_pod ac (get k latest)

-- The tunnels kept, the tunnels to close, and the pods to dial, each with its key.
pub record Plan : Type 0 where
  pub kept : Assoc Text AgentConn
  pub dropped : List AgentConn
  pub dial : Assoc Text AgentPod

abbrev pub planned : Text → AgentConn → Verdict → Plan → Plan
planned k ac keep p = record p { kept = (k, ac) ∷ p.kept }
planned k ac drop p = record p { dropped = ac ∷ p.dropped }
planned k ac (renew ai) p = record p { dropped = ac ∷ p.dropped; dial = (k, ai) ∷ p.dial }

abbrev pub no_plan : Plan
no_plan = record { kept = []; dropped = []; dial = [] }

-- The first loop of `reconcile`.
unfoldable pub judge_all : List Text → Assoc Text AgentPod → Assoc Text AgentConn → Plan
unfolding judged
judge_all wanted latest [] = no_plan
judge_all wanted latest ((k, ac) ∷ conns) =
    planned k ac (judged wanted latest k ac) (judge_all wanted latest conns)

-- A reported pod that no tunnel and no claim holds.
unfoldable pub is_missing : List Text → Assoc Text AgentConn → List Text → Text → AgentPod → Bool
unfolding contains get
is_missing wanted kept establishing k ai =
    contains (agent_key_of ai) wanted
    && (not (is_some (get k kept)) && not (contains k establishing))

-- The second loop.
unfoldable pub missing_pods :
    List Text → Assoc Text AgentConn → List Text → Assoc Text AgentPod → Assoc Text AgentPod
unfolding is_missing
missing_pods wanted kept establishing [] = []
missing_pods wanted kept establishing ((k, ai) ∷ rest) =
    let later = missing_pods wanted kept establishing rest in
    if is_missing wanted kept establishing k ai then (k, ai) ∷ later else later

abbrev pub keys_of : Assoc Text AgentPod → List Text
keys_of [] = []
keys_of ((k, ai) ∷ rest) = k ∷ keys_of rest

-- The pods that a pass dials.
unfoldable pub to_establish : List Text → AgentPool → Assoc Text AgentPod
unfolding judge_all missing_pods
to_establish wanted p =
    let plan = judge_all wanted p.latest p.conns in
    plan.dial ++ missing_pods wanted plan.kept p.establishing p.latest

unfoldable pub claimed : List Text → AgentPool → AgentPool
unfolding judge_all to_establish
claimed wanted p = record p {
  conns = (judge_all wanted p.latest p.conns).kept;
  establishing = keys_of (to_establish wanted p) ++ p.establishing;
}
