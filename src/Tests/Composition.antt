-- ===== src/Tests/Composition.antt =====
-- Delegation and composition at concrete agents.
use enterprise_agent_harness.Prelude.{
  ℕ, zero, suc, ◌+◌, ◌≤◌, ◌≡◌, ◌≢◌, refl, none, some, [], ◌∷◌, blank, string_eq,
}
use enterprise_agent_harness.Dict.{get, put}
use enterprise_agent_harness.Method.{ok}
use enterprise_agent_harness.Contracts.{
  RiskLevel, OutcomeStatus, CompositionPattern, PrincipalContext, ExecutionContext, AgentOutcome,
}
use enterprise_agent_harness.Outcomes.{sorted_set, insert_sorted, before}
use enterprise_agent_harness.Composition.Contracts.{
  DelegationRequest, DelegationResult, BuiltAgent, CompositionDefinition, CompositionResult,
}
use enterprise_agent_harness.Composition.Delegate.{
  Factory, Settings, Composer, authorized, claim_id, name_child, reserve, run_child, delegate_under,
  delegate,
}
use enterprise_agent_harness.Composition.Limits.{
  split_at, request_error, tool_ceiling, risk_ceiling, ceiling,
}
use enterprise_agent_harness.Composition.Compose.{
  steps_for_definition, dispatch, compose_steps, compose,
}
use enterprise_agent_harness.Composition.Authority.{WithinParent, delegate-WithinParent}
use enterprise_agent_harness.Composition.Chains.{root, child, Chain-bounded}
use enterprise_agent_harness.Composition.Once.{delegate_all, delegate_once}
use enterprise_agent_harness.Composition.Pipelines.{Concludes, compose-Concludes}

abbrev ada : PrincipalContext
ada = record { principal_id = "ada"; tenant_id = "acme"; session_id = "s1" }

abbrev parent : ExecutionContext
parent = record {
  execution_id = "run_1";
  agent_id = "triage";
  agent_version = "1.0.0";
  principal = ada;
  authorized_tool_ids = "read" ∷ "charge" ∷ [];
  authorized_tool_versions = "read@1.0.0" ∷ "charge@2.0.0" ∷ [];
  granted_permissions = "orders" ∷ "money" ∷ [];
  approved_action_digests = [];
  max_steps = 3;
  environment = "production";
  max_risk_level = RiskLevel.medium;
  correlation_id = "corr";
  delegation_depth = 0;
  delegation_path = [];
}

abbrev reader : BuiltAgent
reader = record {
  trusted_agent_identity = ("reader", "1.0.0");
  trusted_allowed_tool_versions = "read@1.0.0" ∷ "scan@1.0.0" ∷ [];
  trusted_tool_permissions = ("read@1.0.0", "orders" ∷ []) ∷ [];
  trusted_risk_level = RiskLevel.low;
  trusted_max_plan_steps = 5;
}

abbrev outcome : OutcomeStatus → AgentOutcome
outcome status = record {
  outcome_id = "out";
  execution_id = "child";
  agent_id = "reader";
  agent_version = "1.0.0";
  principal_id = "ada";
  tenant_id = "acme";
  status = status;
  summary = "read it";
  safety_flags = [];
}

-- The second run of an agent is only partial.
abbrev status_of : ℕ → OutcomeStatus
status_of n = elim n [ zero ↦ OutcomeStatus.completed | suc m ↦ OutcomeStatus.partial ]

abbrev factory : Factory ℕ
factory = record {
  runtime_for = λ id version n. some reader;
  execute = λ agent input state_id context n. (ok (outcome (status_of n)), n + 1);
}

abbrev settings : Settings
settings = record {
  max_delegation_depth = 3;
  new_id = λ prefix n. prefix;
  clock = λ n. n;
  decimal = λ n. elim n [ zero ↦ "0" | suc m ↦ elim m [ zero ↦ "1" | suc k ↦ "2" ] ];
}

abbrev composer : Composer ℕ
composer = record {
  delegation_ids = [];
  child_execution_ids = [];
  child_state_ids = [];
  identity_counter = 0;
  composition_counter = 0;
  ids_made = 0;
  clock_reads = 0;
  agents = 0;
}

abbrev request : DelegationRequest
request = record {
  delegation_id = "d1";
  parent_execution_id = "run_1";
  parent_agent_id = "triage";
  parent_agent_version = "1.0.0";
  child_agent_id = "reader";
  child_agent_version = "1.0.0";
  input_text = "go";
  reason = "help";
  requested_tool_ids = [];
  requested_permissions = [];
  max_risk_level = none;
}

delegation :
    (r : DelegationResult) × ((delegate factory settings parent request composer).0 ≡ ok r)
    × (1 ≡ r.context.delegation_depth)
unfolding delegate delegate_under authorized request_error ceiling tool_ceiling risk_ceiling reserve
    claim_id name_child run_child split_at sorted_set insert_sorted before get put blank
delegation = (_, refl, refl)

delegate-WithinParent_example : WithinParent settings parent delegation.0.context
delegate-WithinParent_example =
    delegate-WithinParent factory settings parent request composer delegation.0 delegation.1

abbrev leaf : ExecutionContext
leaf = record parent { execution_id = "child"; delegation_depth = 1 }

Chain-bounded_example : (leaf.delegation_depth ≡ 1) × (1 ≤ 3)
Chain-bounded_example =
    Chain-bounded factory settings 1 leaf
      (child (root parent refl) request composer delegation.0 delegation.1 leaf delegation.2)

delegate_once_example :
    (delegate factory settings parent request (
      delegate_all factory settings
        ((parent, record request { delegation_id = "d2" }) ∷ [])
        (delegate factory settings parent request composer).1)).0
    ≢ ok delegation.0
delegate_once_example =
    delegate_once factory settings parent parent request request delegation.0
      ((parent, record request { delegation_id = "d2" }) ∷ []) delegation.0 composer delegation.1
      refl refl

abbrev definition : CompositionDefinition
definition = record {
  composition_id = "pipe";
  version = "1.0.0";
  pattern = CompositionPattern.sequential;
  steps =
      (record { step_id = "one"; agent_id = "reader"; agent_version = "1.0.0" })
      ∷ (record { step_id = "two"; agent_id = "writer"; agent_version = "1.0.0" })
      ∷ [];
}

concluded :
    (r : CompositionResult) × ((compose factory settings parent definition "go" none composer).0
      ≡ ok r)
unfolding compose compose_steps dispatch steps_for_definition delegate delegate_under authorized
    request_error ceiling tool_ceiling risk_ceiling reserve claim_id name_child run_child split_at
    sorted_set insert_sorted before get put blank
concluded = (_, refl)

compose-Concludes_example : Concludes factory settings definition concluded.0
compose-Concludes_example =
    compose-Concludes factory settings parent definition "go" none concluded.0 composer concluded.1
