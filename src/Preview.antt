-- ===== src/Preview.antt =====
-- preview.go and workload.go: what a preview is. A time that is not set is the number 0.
use agentic_preview.Common.{
  ℕ, Bool, true, false, ◌&&◌, List, [], ◌∷◌, ◌++◌, Option, none, some, KeyEq, ◌≡◌, ◌↔◌, arith,
  eq_text, eq_text_iff,
}
use agentic_preview.Common.Assoc.{Assoc}
use agentic_preview.Common.Int.{ℤ}
use agentic_preview.Text.{Text, codes}

-- `serviceKey`
pub record ServiceKey : Type 0 where
  pub work_id : Text
  pub namespace : Text
  pub workload : Text

abbrev pub same_key : ServiceKey → ServiceKey → Bool
same_key a b =
    eq_text a.work_id b.work_id
    && (eq_text a.namespace b.namespace && eq_text a.workload b.workload)

pub same_key_iff : (a b : ServiceKey) → (same_key a b ≡ true) ↔ (a ≡ b)
same_key_iff a b = ground (
  arith,
  eq_text_iff a.work_id b.work_id,
  eq_text_iff a.namespace b.namespace,
  eq_text_iff a.workload b.workload,
)

instance abbrev pub service_key : KeyEq ServiceKey
service_key = record { same = same_key; same_iff = same_key_iff }

pub record CreateSpec : Type 0 where
  pub namespace : Text
  pub source_workload : Text
  pub source_service : Text
  pub name : Text
  pub image : Text
  pub container : Text
  pub replicas : ℤ

pub record CreatedObjects : Type 0 where
  pub namespace : Text
  pub deployment : Text
  pub service : Text
  pub container : Text
  pub replicas : ℤ
  pub ready : Bool

pub record Preview : Type 0 where
  pub work_id : Text
  pub workload : Text
  pub namespace : Text
  pub name : Text
  pub header_name : Text
  pub header_value : Text
  pub port_id : Text
  pub global : Bool
  pub schedule : Text
  pub service_name : Text
  pub target_service : Text
  pub target_host : Text
  pub target_port : ℤ
  pub disposition : Text
  pub message : Text
  pub agent_pods : List Text
  pub agent_pods_reported : ℕ
  pub image : Text
  pub raised_at : ℕ
  pub expires_at : ℕ
  pub create : Option CreateSpec
  pub created : Option CreatedObjects

-- `(*Preview).key`
abbrev pub key : Preview → ServiceKey
key p = record { work_id = p.work_id; namespace = p.namespace; workload = p.workload }

-- `(*Preview).agentKey`
abbrev pub agent_key : Preview → Text
agent_key p = p.workload ++ (codes "." ++ p.namespace)

-- `(*Preview).headerFilters`; the nil map is `none`
unfoldable pub header_filters : Preview → Option (Assoc Text Text)
header_filters p = elim p.global [
  | true ↦ none
  | false ↦ some ((p.header_name, p.header_value) ∷ [])
]
