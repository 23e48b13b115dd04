-- ===== src/Tests/Tools.antt =====
-- The tool registry at a concrete tool, handler and call.
use enterprise_agent_harness.Prelude.{
  ltb, ℕ, zero, suc, ◌+◌, ◌≤◌, String, ◌≡◌, refl, true, false, none, some, List, [], ◌∷◌, arith,
  blank, string_eq, pair_eq,
}
use enterprise_agent_harness.Dict.{get, put}
use enterprise_agent_harness.Method.{ok}
use enterprise_agent_harness.Contracts.{
  ToolKind, RiskLevel, AgentLifecycleStatus, PrincipalContext, ExecutionContext, ToolResult,
}
use enterprise_agent_harness.Tools.Definitions.{ToolDefinition}
use enterprise_agent_harness.Tools.Invoke.{
  Application, returned, refused, Failure, invoke as invoke_handler,
}
use enterprise_agent_harness.Tools.Registry.{
  Registry, Stamps, new_registry, register, find, assert_active,
}
use enterprise_agent_harness.Tools.Invocation.{
  run_attempt, on_failure, on_result, conclude, record_execution,
}
use enterprise_agent_harness.Tools.Retry.{
  is_cacheable, Caller, World, in_time, should_retry, should_retry_result,
}
use enterprise_agent_harness.Tools.Execution.{
  Request, invoke_loop, invoke_locked, invoke_cached, invoke_tool, invoke, action_of,
}
use enterprise_agent_harness.Tools.Attempts.{invoke_locked_ends, allowance, runs-invoke}
use enterprise_agent_harness.Tools.Replay.{Replays, invoke-Replays}
use enterprise_agent_harness.Runtime.Control.{Costs, Surroundings, Control}
use enterprise_agent_harness.Tools.Retries.{admission, retries-invoke}
use enterprise_agent_harness.Tools.Lifecycle.{
  Call, moving, registering, Later, perform_all, perform_all-Later, register-find,
}

abbrev ada : PrincipalContext
ada = record { principal_id = "ada"; tenant_id = "acme"; session_id = "s1" }

abbrev execution : String → ExecutionContext
execution id = record {
  execution_id = id;
  agent_id = "triage";
  agent_version = "1.0.0";
  principal = ada;
  authorized_tool_ids = "charge" ∷ [];
  authorized_tool_versions = [];
  granted_permissions = [];
  approved_action_digests = [];
  max_steps = 3;
  environment = "production";
  max_risk_level = RiskLevel.high;
  correlation_id = "corr";
  delegation_depth = 0;
  delegation_path = [];
}

abbrev charge : ToolDefinition
charge = record {
  tool_id = "charge";
  version = "1.0.0";
  kind = ToolKind.action;
  risk_level = RiskLevel.medium;
  required_permissions = [];
  requires_approval = false;
  idempotency_required = true;
  lifecycle = AgentLifecycleStatus.active;
  timeout_seconds = none;
  retryable = true;
  max_attempts = 3;
  allowed_environments = [];
  retry_policy = none;
}

abbrev busy : Failure
busy = record { code = "busy"; retryable = true; cause_retryable = false; cause_listed = false }

-- A handler that fails the first time it is called; the state counts its calls.
abbrev application : Application String ℕ
application = record {
  accepts = λ tool arguments. true;
  dump = λ tool output. some output;
  call = λ tool context arguments calls. elim calls [
    | zero ↦ (refused busy, 1)
    | suc n ↦ (returned "{}", suc (suc n))
  ];
}

abbrev caller : Caller String ℕ
caller = record {
  application = application;
  action_digest = λ tool arguments. arguments;
  sha256 = λ text. text;
  decimal = λ n. "1";
  timing = λ n. in_time;
  started = λ n. true;
  arrives_before = λ n a. a;
  arrives_after = λ n a. a;
  pause = λ n. none;
  retry_admission = none;
}

abbrev registry : Registry
registry = record new_registry { tools = (("charge", "1.0.0"), charge) ∷ [] }

abbrev start : World ℕ
start = record { registry = registry; runs = 0; pauses = 0; app = 0 }

abbrev request : Request String
request = record {
  tool_id = "charge";
  context = execution "run_1";
  arguments = "5";
  version = some "1.0.0";
  idempotency_key = some "order_7";
}

abbrev stamps : Stamps
stamps = record { id_factory = λ n. "event"; clock = λ n. n }

charged :
    (r : ToolResult) × ((invoke caller request start).0 ≡ ok r) × (is_cacheable r.status ≡ true)
unfolding invoke invoke_tool invoke_cached invoke_locked invoke_loop run_attempt invoke_handler
    on_failure on_result conclude should_retry should_retry_result record_execution find get put
    blank
charged = (_, refl, refl)

invoke-Replays_example :
    let after = (invoke caller request start).1 in
    Replays caller charged.0 after
      (invoke caller (record request { context = execution "run_2" }) after)
unfolding find get
invoke-Replays_example =
    invoke-Replays caller request (execution "run_2") charge "order_7" charged.0 start refl refl
      refl charged.1 charged.2

runs-invoke_example :
    (invoke caller request start).1.runs ≤ 0 + allowance caller (action_of caller request charge)
unfolding find get
runs-invoke_example = runs-invoke caller request charge start refl

invoke_locked_ends_example :
    invoke_loop caller (action_of caller request charge) (3 + 2) 0 none start
    ≡ invoke_locked caller (action_of caller request charge) start
invoke_locked_ends_example =
    invoke_locked_ends caller (action_of caller request charge) 2 start (omega arith)

abbrev calls : List Call
calls =
    moving "charge" "1.0.0" AgentLifecycleStatus.deprecated
    ∷ moving "charge" "1.0.0" AgentLifecycleStatus.active
    ∷ registering charge
    ∷ []

perform_all-Later_example :
    Later charge (get ("charge", "1.0.0") (perform_all stamps calls registry).tools)
unfolding get
perform_all-Later_example = perform_all-Later stamps calls ("charge", "1.0.0") charge registry refl

register-find_example :
    let after = (register stamps charge new_registry).1 in
    ((register stamps charge new_registry).0 ≡ ok charge)
    × (find "charge" (some "1.0.0") true after ≡ ok charge)
    × (find "charge" (some "1.0.0") false after ≡ assert_active charge AgentLifecycleStatus.active)
unfolding get
register-find_example = register-find stamps charge new_registry refl

abbrev costs : Costs ℕ
costs = record { zero_cost = 0; add = λ a b. a + b; exceeds = λ a b. ltb b a }

abbrev surroundings : Surroundings
surroundings = record { monotonic = λ n. n; cancelled = λ n. false }

-- A run that has one retry left.
abbrev control : Control ℕ
control = record {
  deadline = none;
  max_retries = some 2;
  max_total_tokens = none;
  max_cost = none;
  max_tool_invocations = none;
  remaining_retries = some 1;
  retry_count = 1;
  retry_budget_exhausted = false;
  execution_id = some "run_1";
  total_tokens = 0;
  total_cost = 0;
  tool_invocations = 0;
  budget_reason = none;
  clock_reads = 0;
  signal_reads = 0;
}

-- A handler that always fails.
abbrev controlled : Caller String (Control ℕ × ℕ)
controlled = record {
  application = record {
    accepts = λ tool arguments. true;
    dump = λ tool output. some output;
    call = λ tool context arguments a. (refused busy, (a.0, a.1 + 1));
  };
  action_digest = λ tool arguments. arguments;
  sha256 = λ text. text;
  decimal = λ n. "1";
  timing = λ n. in_time;
  started = λ n. true;
  arrives_before = λ n a. (a.0, a.1 + n);
  arrives_after = λ n a. a;
  pause = λ n. none;
  retry_admission = some (admission costs surroundings);
}

abbrev budgeted : World (Control ℕ × ℕ)
budgeted = record { registry = registry; runs = 0; pauses = 0; app = (control, 0) }

retries-invoke_example : (invoke controlled request budgeted).1.runs ≤ 0 + (1 + 1)
unfolding find get
retries-invoke_example =
    retries-invoke costs surroundings controlled refl (λ tool context arguments a. refl)
      (λ n a. refl) (λ n a. refl) request charge 1 budgeted refl refl
