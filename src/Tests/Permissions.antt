-- ===== src/Tests/Permissions.antt =====
-- The permission broker at concrete engines and calls.
use enterprise_agent_harness.Prelude.{
  String, ◌≡◌, refl, true, false, false, ◌&&◌, none, some, List, [], ◌∷◌, ◌++◌, all,
}
use enterprise_agent_harness.Dict.{get}
use enterprise_agent_harness.Method.{ok}
use enterprise_agent_harness.Contracts.{
  ToolKind, RiskLevel, AgentLifecycleStatus, PolicyEffect, PrincipalContext, ExecutionContext,
  PolicyRule, PolicyDefinition, PolicyDecision, PermissionDecision,
}
use enterprise_agent_harness.Governance.Permissions.Rules.{
  ToolDefinition, Proposal, Engine, answered, rule_matches,
}
use enterprise_agent_harness.Governance.Permissions.Authority.{
  authority_failure, environment_failure, constrained, environment_lists, environment_then_limits,
  limit_failure,
}
use enterprise_agent_harness.Governance.Permissions.Definitions.{
  tally_rules, tally_matched, tally_policies, decide_tally, decide_active, unless_inactive,
  evaluate_definitions,
}
use enterprise_agent_harness.Governance.Permissions.Evaluate.{
  finish, hook_decision, evaluate_hooks, combine, after_definitions, after_authority, evaluate,
}
use enterprise_agent_harness.Governance.Permissions.Grants.{within_authority}
use enterprise_agent_harness.Governance.Permissions.Broker.{judge, is_approved, authorize}
use enterprise_agent_harness.Governance.Permissions.Ceiling.{
  WithinAuthority, authorize-WithinAuthority,
}
use enterprise_agent_harness.Governance.Permissions.Clashes.{clash}
use enterprise_agent_harness.Governance.Permissions.DenyFirst.{
  permits, all_active, allowed-evaluate_definitions,
}
use enterprise_agent_harness.Governance.Permissions.Verdict.{
  passes, evaluate-Judged, evaluate_records,
}
use enterprise_agent_harness.Governance.Permissions.Approval.{authorize_needs_approval}

abbrev ada : PrincipalContext
ada = record { principal_id = "ada"; tenant_id = "acme"; session_id = "s1" }

abbrev execution : ExecutionContext
execution = record {
  execution_id = "run_1";
  agent_id = "triage";
  agent_version = "1.0.0";
  principal = ada;
  authorized_tool_ids = "refund" ∷ [];
  authorized_tool_versions = [];
  granted_permissions = "orders" ∷ [];
  approved_action_digests = "refund 5" ∷ [];
  max_steps = 3;
  environment = "production";
  max_risk_level = RiskLevel.high;
  correlation_id = "corr";
  delegation_depth = 0;
  delegation_path = [];
}

abbrev refund : ToolDefinition
refund = record {
  tool_id = "refund";
  version = "1.0.0";
  kind = ToolKind.action;
  risk_level = RiskLevel.medium;
  required_permissions = "orders" ∷ [];
  requires_approval = true;
  lifecycle = AgentLifecycleStatus.active;
  allowed_environments = [];
  idempotency_required = false;
  timeout_seconds = none;
  retryable = false;
  max_attempts = 1;
  retry_policy = none;
}

abbrev call : Proposal String
call = record {
  principal = ada;
  execution = execution;
  tool = refund;
  arguments = "5";
  resource = none;
}

abbrev rule : PolicyEffect → String → PolicyRule
rule effect id = record {
  rule_id = id;
  effect = effect;
  tool_ids = "refund" ∷ [];
  agent_ids = [];
  principal_ids = [];
  tenant_ids = [];
  required_permissions = [];
  environments = [];
  risk_levels = [];
  resource_types = [];
  resource_ids = [];
  requires_approval = none;
}

abbrev policy : List PolicyRule → PolicyDefinition
policy rules = record {
  policy_id = "refunds";
  version = "1.0.0";
  default_effect = PolicyEffect.deny;
  rules = rules;
  lifecycle = AgentLifecycleStatus.active;
}

abbrev engine_with : List PolicyDefinition → Engine String
engine_with policies = record {
  policies = policies;
  principal_tool_permissions = some (("ada", "refund" ∷ []) ∷ []);
  principal_permissions = some (("ada", "orders" ∷ []) ∷ []);
  agent_tool_allowlists = some (("triage", "refund" ∷ []) ∷ []);
  environment_constraints =
      (
        "production",
        record { allowed_tool_ids = some ("refund" ∷ []); max_risk_level = RiskLevel.high },
      )
      ∷ [];
  environment_tool_allowlists = some (("production", "refund" ∷ []) ∷ []);
  max_risk_by_environment = ("production", RiskLevel.medium) ∷ [];
  resource_policy_hooks = (λ p. answered true) ∷ [];
  id_factory = λ prefix. prefix;
}

abbrev allowing : Engine String
allowing = engine_with (policy (rule PolicyEffect.allow "allow_refund" ∷ []) ∷ [])

abbrev mixed : List PolicyDefinition
mixed =
    policy (rule PolicyEffect.allow "allow_refund" ∷ rule PolicyEffect.deny "deny_refund" ∷ []) ∷ []

abbrev digest : ToolDefinition → String → String
digest tool arguments = "refund 5"

evaluated : (d : PolicyDecision) × ((evaluate allowing call []).0 ≡ ok d) × (d.allowed ≡ true)
unfolding evaluate after_authority after_definitions combine evaluate_hooks hook_decision finish
    evaluate_definitions unless_inactive decide_active decide_tally tally_policies tally_matched
    tally_rules rule_matches authority_failure environment_failure constrained environment_lists
    environment_then_limits limit_failure get
evaluated = (_, refl, refl)

authorized :
    (g : PermissionDecision) × ((authorize digest allowing call []).0 ≡ ok g) × (g.allowed ≡ true)
unfolding authorize judge evaluate after_authority after_definitions combine evaluate_hooks
    hook_decision finish evaluate_definitions unless_inactive decide_active decide_tally
    tally_policies tally_matched tally_rules rule_matches authority_failure environment_failure
    constrained environment_lists environment_then_limits limit_failure get
authorized = (_, refl, refl)

denied : (d : PolicyDecision) × (evaluate_definitions "policy_decision" call mixed ≡ ok d)
unfolding evaluate_definitions unless_inactive decide_active decide_tally tally_policies
    tally_matched tally_rules rule_matches
denied = (_, refl)

authorize-WithinAuthority_example : WithinAuthority allowing call
authorize-WithinAuthority_example =
    authorize-WithinAuthority allowing digest call [] {g = authorized.0} authorized.1 authorized.2

evaluate-Judged_example :
    (within_authority allowing call && clash call allowing.policies ≡ false)
    × (evaluated.0.allowed
        ≡ (within_authority allowing call && passes allowing "policy_decision" call))
unfolding evaluate after_authority after_definitions combine evaluate_hooks hook_decision finish
    evaluate_definitions unless_inactive decide_active decide_tally tally_policies tally_matched
    tally_rules rule_matches authority_failure environment_failure constrained environment_lists
    environment_then_limits limit_failure get evaluated
evaluate-Judged_example = evaluate-Judged allowing call []

evaluate_records_example : (evaluate allowing call []).1 ≡ [] ++ evaluated.0 ∷ []
evaluate_records_example = evaluate_records allowing call [] {d = evaluated.0} evaluated.1

allowed-evaluate_definitions_example :
    denied.0.allowed ≡ (all_active mixed && all (permits call) mixed)
allowed-evaluate_definitions_example =
    allowed-evaluate_definitions "policy_decision" call mixed {d = denied.0} denied.1

authorize_needs_approval_example : is_approved digest call ≡ true
authorize_needs_approval_example =
    authorize_needs_approval allowing digest call [] {g = authorized.0} refl authorized.1
      authorized.2
