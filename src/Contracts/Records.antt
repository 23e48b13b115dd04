-- ===== src/Contracts/Records.antt =====
-- contracts.py: the contracts, with the fields that the modelled code reads, writes or compares.
-- Pydantic's checks of single fields (lengths, patterns, time zones) are left out; the validators
-- that the modelled code can run into are functions where they are met. A confidence is a double
-- in [0, 1], modelled by its bit pattern, which has the same order: the program only compares it.
use enterprise_agent_harness.Prelude.{ℕ, String, Bool, Option, List}
use enterprise_agent_harness.Dict.{Dict}
use enterprise_agent_harness.Contracts.Kinds.{
  RiskLevel, ToolResultStatus, ExecutionStateStatus, OutcomeStatus, SafetyFlag,
  AgentLifecycleStatus, PolicyEffect,
}

pub record PrincipalContext : Type 0 where
  pub principal_id : String
  pub tenant_id : String
  pub session_id : String

pub record ExecutionContext : Type 0 where
  pub execution_id : String
  pub agent_id : String
  pub agent_version : String
  pub principal : PrincipalContext
  pub authorized_tool_ids : List String
  pub authorized_tool_versions : List String
  pub granted_permissions : List String
  pub approved_action_digests : List String
  pub max_steps : ℕ
  pub environment : String
  pub max_risk_level : RiskLevel
  pub correlation_id : String
  pub delegation_depth : ℕ
  pub delegation_path : List String

pub record ResourceContext : Type 0 where
  pub resource_type : String
  pub resource_id : Option String

pub record PolicyRule : Type 0 where
  pub rule_id : String
  pub effect : PolicyEffect
  pub tool_ids : List String
  pub agent_ids : List String
  pub principal_ids : List String
  pub tenant_ids : List String
  pub required_permissions : List String
  pub environments : List String
  pub risk_levels : List RiskLevel
  pub resource_types : List String
  pub resource_ids : List String
  pub requires_approval : Option Bool

pub record PolicyDefinition : Type 0 where
  pub policy_id : String
  pub version : String
  pub default_effect : PolicyEffect
  pub rules : List PolicyRule
  pub lifecycle : AgentLifecycleStatus

pub record PolicyDecision : Type 0 where
  pub decision_id : String
  pub allowed : Bool
  pub principal_id : String
  pub tenant_id : String
  pub agent_id : String
  pub tool_id : String
  pub environment : String
  pub risk_level : RiskLevel
  pub reason_code : String
  pub policy_id : Option String
  pub policy_version : Option String
  pub rule_id : Option String
  pub matched_rule_ids : List String
  pub approval_required : Bool
  pub resource_type : Option String
  pub resource_id : Option String

pub record PermissionDecision : Type 0 where
  pub allowed : Bool
  pub principal_id : String
  pub tenant_id : String
  pub tool_id : String
  pub reason_code : String
  pub approval_required : Bool
  pub agent_id : Option String
  pub environment : Option String
  pub risk_level : Option RiskLevel
  pub policy_decision : Option PolicyDecision

pub record EvidenceRef : Type 0 where
  pub evidence_id : String
  pub source : String
  pub kind : String

-- An output is kept as its JSON text.
pub record ToolResult : Type 0 where
  pub tool_id : String
  pub tool_version : Option String
  pub execution_id : Option String
  pub output : Option String
  pub metadata : Dict String String
  pub status : ToolResultStatus
  pub evidence : List EvidenceRef
  pub restricted : Bool
  pub conflicts : List String
  pub injection_flags : List String
  pub error_code : Option String

pub record OutcomeProposal : Type 0 where
  pub summary : String
  pub confidence : ℕ
  pub evidence_ids : List String

pub record VerificationResult : Type 0 where
  pub supported : Bool
  pub confidence : ℕ
  pub evidence_coverage : ℕ × ℕ
  pub invalid_evidence_ids : List String
  pub reasons : List String

pub record AgentOutcome : Type 0 where
  pub outcome_id : String
  pub execution_id : String
  pub agent_id : String
  pub agent_version : String
  pub principal_id : String
  pub tenant_id : String
  pub status : OutcomeStatus
  pub summary : String
  pub safety_flags : List SafetyFlag

-- The thresholds are confidences.
pub record RuntimeConfig : Type 0 where
  pub minimum_confidence_threshold : ℕ
  pub high_confidence_threshold : ℕ

pub record ToolExecutionRecord : Type 0 where
  pub execution_id : String
  pub tool_id : String
  pub tool_version : String
  pub status : ToolResultStatus
  pub attempts : ℕ
  pub retry_count : ℕ
  pub timeout_seconds : Option ℕ
  pub idempotency_key_digest : Option String
  pub error_code : Option String

-- The data of a state are kept as their JSON text.
pub record ExecutionState : Type 0 where
  pub state_id : String
  pub execution_id : String
  pub agent_id : String
  pub agent_version : String
  pub principal_id : String
  pub tenant_id : String
  pub session_id : String
  pub status : ExecutionStateStatus
  pub version : ℕ
  pub data_json : String
  pub updated_at : ℕ
