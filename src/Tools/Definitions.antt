-- ===== src/Tools/Definitions.antt =====
-- tools/definitions.py: a tool without its models and its handler, which are the application's.
use enterprise_agent_harness.Prelude.{ℕ, String, Bool, false, ◌||◌, Option, none, some, List, ltb}
use enterprise_agent_harness.Contracts.{ToolKind, RiskLevel, AgentLifecycleStatus}

pub record ToolRetryPolicy : Type 0 where
  pub max_attempts : ℕ
  pub backoff_seconds : ℕ

pub record ToolDefinition : Type 0 where
  pub tool_id : String
  pub version : String
  pub kind : ToolKind
  pub risk_level : RiskLevel
  pub required_permissions : List String
  pub requires_approval : Bool
  pub idempotency_required : Bool
  pub lifecycle : AgentLifecycleStatus
  pub timeout_seconds : Option ℕ
  pub retryable : Bool
  pub max_attempts : ℕ
  pub allowed_environments : List String
  pub retry_policy : Option ToolRetryPolicy

abbrev pub retry_enabled : ToolDefinition → Bool
retry_enabled tool =
    tool.retryable
    || elim tool.retry_policy [ none ↦ false | some policy ↦ ltb 1 policy.max_attempts ]

abbrev pub retry_max_attempts : ToolDefinition → ℕ
retry_max_attempts tool = elim tool.retry_policy [
  | none ↦ tool.max_attempts
  | some policy ↦ policy.max_attempts
]
