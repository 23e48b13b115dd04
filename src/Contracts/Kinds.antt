-- ===== src/Contracts/Kinds.antt =====
-- contracts.py: the enumerations, with an equality test for those that the code compares.
use enterprise_agent_harness.Prelude.{ℕ, ◌≡◌, ◌↔◌, Bool, true, false, ltb, arith, Eq, nat_beq}

pub data ToolKind : Type 0 where
  read write action : ToolKind

pub data RiskLevel : Type 0 where
  low medium high critical : RiskLevel

pub data ToolResultStatus : Type 0 where
  succeeded empty restricted failed invalid_arguments permission_denied approval_required :
      ToolResultStatus

pub data OutcomeStatus : Type 0 where
  completed partial needs_input refused escalated failed timed_out cancelled : OutcomeStatus

pub data ApprovalDecisionStatus : Type 0 where
  approved rejected request_changes expired : ApprovalDecisionStatus

pub data SafetyFlag : Type 0 where
  direct_prompt_injection indirect_prompt_injection restricted_result permission_denied : SafetyFlag
  approval_required plan_validation_failed tool_validation_failed tool_failure : SafetyFlag
  tool_timeout provider_failure provider_timeout provider_output_invalid no_result : SafetyFlag
  conflicting_result low_confidence verification_failed execution_timeout : SafetyFlag
  execution_cancelled retry_budget_exhausted budget_exhausted : SafetyFlag

pub data ExecutionStateStatus : Type 0 where
  pending running paused completed failed refused escalated : ExecutionStateStatus

pub data CompositionPattern : Type 0 where
  router supervisor specialist sequential : CompositionPattern

pub data AgentLifecycleStatus : Type 0 where
  draft validated active suspended deprecated retired : AgentLifecycleStatus

pub data PolicyEffect : Type 0 where
  allow deny : PolicyEffect

-- The table `order` of `_risk_exceeds`.
abbrev pub risk_order : RiskLevel → ℕ
risk_order RiskLevel.low = 0
risk_order RiskLevel.medium = 1
risk_order RiskLevel.high = 2
risk_order RiskLevel.critical = 3

abbrev pub risk_exceeds : RiskLevel → RiskLevel → Bool
risk_exceeds actual maximum = ltb (risk_order maximum) (risk_order actual)

pub risk_beq_iff : (a b : RiskLevel) → (nat_beq (risk_order a) (risk_order b) ≡ true) ↔ (a ≡ b)
risk_beq_iff a b = ground arith

instance abbrev pub risk_eq : Eq RiskLevel
risk_eq = record { equal = λ a b. nat_beq (risk_order a) (risk_order b); equal_iff = risk_beq_iff }

abbrev pub kind_code : ToolKind → ℕ
kind_code ToolKind.read = 0
kind_code ToolKind.write = 1
kind_code ToolKind.action = 2

pub kind_beq_iff : (a b : ToolKind) → (nat_beq (kind_code a) (kind_code b) ≡ true) ↔ (a ≡ b)
kind_beq_iff a b = ground arith

instance abbrev pub kind_eq : Eq ToolKind
kind_eq = record { equal = λ a b. nat_beq (kind_code a) (kind_code b); equal_iff = kind_beq_iff }

-- `lifecycle == AgentLifecycleStatus.ACTIVE`
abbrev pub is_active : AgentLifecycleStatus → Bool
is_active AgentLifecycleStatus.active = true
is_active _ = false

-- `risk in {RiskLevel.HIGH, RiskLevel.CRITICAL}`
abbrev pub is_high_risk : RiskLevel → Bool
is_high_risk RiskLevel.high = true
is_high_risk RiskLevel.critical = true
is_high_risk _ = false

-- `flag.value == "budget_exhausted"`
abbrev pub is_budget_flag : SafetyFlag → Bool
is_budget_flag SafetyFlag.budget_exhausted = true
is_budget_flag _ = false

abbrev pub lifecycle_code : AgentLifecycleStatus → ℕ
lifecycle_code AgentLifecycleStatus.draft = 0
lifecycle_code AgentLifecycleStatus.validated = 1
lifecycle_code AgentLifecycleStatus.active = 2
lifecycle_code AgentLifecycleStatus.suspended = 3
lifecycle_code AgentLifecycleStatus.deprecated = 4
lifecycle_code AgentLifecycleStatus.retired = 5

pub lifecycle_beq_iff :
    (a b : AgentLifecycleStatus) → (nat_beq (lifecycle_code a) (lifecycle_code b) ≡ true) ↔ (a ≡ b)
lifecycle_beq_iff a b = ground arith

instance abbrev pub lifecycle_eq : Eq AgentLifecycleStatus
lifecycle_eq = record {
  equal = λ a b. nat_beq (lifecycle_code a) (lifecycle_code b);
  equal_iff = lifecycle_beq_iff;
}
