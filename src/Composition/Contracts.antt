-- ===== src/Composition/Contracts.antt =====
-- contracts.py: the contracts of delegation and composition; and what composition.py reads of a
-- built agent.
use enterprise_agent_harness.Prelude.{ℕ, String, Option, List}
use enterprise_agent_harness.Contracts.{
  RiskLevel, CompositionPattern, PrincipalContext, AgentOutcome,
}

pub record DelegationRequest : Type 0 where
  pub delegation_id : String
  pub parent_execution_id : String
  pub parent_agent_id : String
  pub parent_agent_version : String
  pub child_agent_id : String
  pub child_agent_version : String
  pub input_text : String
  pub reason : String
  pub requested_tool_ids : List String
  pub requested_permissions : List String
  pub max_risk_level : Option RiskLevel

pub record DelegatedExecutionContext : Type 0 where
  pub delegation_id : String
  pub correlation_id : String
  pub parent_execution_id : String
  pub parent_agent_id : String
  pub parent_agent_version : String
  pub child_execution_id : String
  pub child_agent_id : String
  pub child_agent_version : String
  pub principal : PrincipalContext
  pub authorized_tool_ids : List String
  pub authorized_tool_versions : List String
  pub granted_permissions : List String
  pub max_steps : ℕ
  pub max_risk_level : RiskLevel
  pub delegation_depth : ℕ
  pub delegation_path : List String

pub record DelegationResult : Type 0 where
  pub delegation_id : String
  pub parent_execution_id : String
  pub child_execution_id : String
  pub correlation_id : String
  pub delegation_depth : ℕ
  pub context : DelegatedExecutionContext
  pub outcome : AgentOutcome
  pub created_at : ℕ

pub record CompositionStep : Type 0 where
  pub step_id : String
  pub agent_id : String
  pub agent_version : String

pub record CompositionDefinition : Type 0 where
  pub composition_id : String
  pub version : String
  pub pattern : CompositionPattern
  pub steps : List CompositionStep

pub record CompositionResult : Type 0 where
  pub composition_id : String
  pub composition_version : String
  pub pattern : CompositionPattern
  pub parent_execution_id : String
  pub correlation_id : String
  pub outcomes : List AgentOutcome
  pub final_outcome : AgentOutcome
  pub created_at : ℕ

-- The trusted attributes of a `BuiltAgent` that the composer reads.
pub record BuiltAgent : Type 0 where
  pub trusted_agent_identity : String × String
  pub trusted_allowed_tool_versions : List String
  pub trusted_tool_permissions : List (String × List String)
  pub trusted_risk_level : RiskLevel
  pub trusted_max_plan_steps : ℕ
