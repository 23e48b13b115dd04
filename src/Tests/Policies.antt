-- ===== src/Tests/Policies.antt =====
-- The approval policy engine at concrete policies.
use enterprise_agent_harness.Prelude.{
  ◌≡◌, refl, ◌++◌, unique, string_eq, ℕ, String, true, false, none, some, List, [], ◌∷◌,
}
use enterprise_agent_harness.Method.{ok}
use enterprise_agent_harness.Contracts.{ToolKind, RiskLevel, AgentLifecycleStatus}
use enterprise_agent_harness.Governance.Approvals.Policies.{
  ApprovalPolicyRule, ApprovalPolicy, PolicyQuestion, PolicyEngine, ApprovalPolicyDecision,
  approval_rule_matches, count_rules, count_policies, evaluate_policies,
}
use enterprise_agent_harness.Governance.Approvals.Reading.{ids_of, requiring, Decides}
use enterprise_agent_harness.Governance.Approvals.Required.{evaluate_policies_lem}

abbrev question : PolicyQuestion
question = record {
  execution = record {
    execution_id = "run_1";
    agent_id = "triage";
    agent_version = "1.0.0";
    principal = record { principal_id = "ada"; tenant_id = "acme"; session_id = "s1" };
    authorized_tool_ids = "charge" ∷ [];
    authorized_tool_versions = [];
    granted_permissions = [];
    approved_action_digests = [];
    max_steps = 3;
    environment = "production";
    max_risk_level = RiskLevel.high;
    correlation_id = "corr";
    delegation_depth = 0;
    delegation_path = [];
  };
  tool = record {
    tool_id = "charge";
    version = "1.0.0";
    kind = ToolKind.action;
    risk_level = RiskLevel.medium;
    required_permissions = [];
    requires_approval = false;
    idempotency_required = true;
    lifecycle = AgentLifecycleStatus.active;
    timeout_seconds = none;
    retryable = true;
    max_attempts = 3;
    allowed_environments = [];
    retry_policy = none;
  };
  action_id = "a1";
}

abbrev rule : String → ℕ → ApprovalPolicyRule
rule id seconds = record {
  rule_id = id;
  tool_ids = "charge" ∷ [];
  action_ids = [];
  action_kinds = ToolKind.action ∷ [];
  risk_levels = [];
  environments = "production" ∷ [];
  requires_approval = true;
  expiry_seconds = some seconds;
}

abbrev policy : String → List ApprovalPolicyRule → ApprovalPolicy
policy id rules = record {
  policy_id = id;
  version = "1.0.0";
  default_requires_approval = false;
  default_expiry_seconds = some 600;
  rules = rules;
  lifecycle = AgentLifecycleStatus.active;
}

-- The rules ask for different expiries.
abbrev policies : List ApprovalPolicy
policies =
    policy "money" (rule "charges" 300 ∷ [])
    ∷ policy "production" (rule "live" 60 ∷ rule "night" 900 ∷ [])
    ∷ []

abbrev ids : String → ℕ → String
ids prefix n = prefix

abbrev engine : PolicyEngine
engine = record { decisions = []; ids_made = 0 }

decided : (d : ApprovalPolicyDecision) × ((evaluate_policies ids policies question engine).0 ≡ ok d)
unfolding evaluate_policies count_policies count_rules approval_rule_matches
decided = (_, refl)

evaluate_policies_lem_example :
    (unique (ids_of question (requiring question policies)) ≡ true)
    × Decides question policies decided.0
    × ((evaluate_policies ids policies question engine).1.decisions ≡ [] ++ decided.0 ∷ [])
unfolding evaluate_policies count_policies count_rules approval_rule_matches decided
evaluate_policies_lem_example = evaluate_policies_lem question ids policies engine
