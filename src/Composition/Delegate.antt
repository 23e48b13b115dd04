-- ===== src/Composition/Delegate.antt =====
-- composition.py: `AgentComposer.delegate`. The agent factory and the agents that it builds are an
-- interface, `Factory`: they answer a state of their own. Locks are left out, and a method that
-- raises inside one leaves what it had written.
use Prim.Native.String.{◌++◌ as append}
use enterprise_agent_harness.Prelude.{
  ℕ, ◌+◌, String, not, Option, List, [], ◌∷◌, ◌++◌, contains, unique, leb, nat_eq, string_eq,
  or_else, if◌then◌else◌,
}
use enterprise_agent_harness.Dict.{Dict, get, put}
use enterprise_agent_harness.Method.{
  Method, Result, ok, err, value_error, delegation_error, delegation_cycle, delegation_depth, pure,
  raise_if, ◌>>=◌, ◌>>◌, after,
}
use enterprise_agent_harness.Contracts.{ExecutionContext, AgentOutcome}
use enterprise_agent_harness.Composition.Contracts.{
  DelegationRequest, DelegatedExecutionContext, DelegationResult, BuiltAgent,
}
use enterprise_agent_harness.Composition.Limits.{
  request_error, parent_path, Ceiling, ceiling, child_identity, unless_error,
}

-- The agent factory: `runtime_for` has no agent when it, or the registry's `resolve`, raises its
-- error. `execute` runs a built agent on the principal, the input and the authority it is given.
pub record Factory (S : Type 0) : Type 0 where
  pub runtime_for : String → String → S → Option BuiltAgent
  pub execute : BuiltAgent → String → String → DelegatedExecutionContext → Method S AgentOutcome

-- `AgentComposer.__init__`: the ID factory and the clock answer a count of calls.
pub record Settings : Type 0 where
  pub max_delegation_depth : ℕ
  pub new_id : String → ℕ → String
  pub clock : ℕ → ℕ
  pub decimal : ℕ → String

pub record Composer (S : Type 0) : Type 0 where
  pub delegation_ids : Dict String (List String)
  pub child_execution_ids : List String
  pub child_state_ids : List String
  pub identity_counter : ℕ
  pub composition_counter : ℕ
  pub ids_made : ℕ
  pub clock_reads : ℕ
  pub agents : S

module _ {S : Type 0} (factory : Factory S) (settings : Settings) where
  -- `delegate` up to the reservation of the IDs.
  unfoldable pub authorized : ExecutionContext → DelegationRequest → S → Result Ceiling
  authorized parent request s =
      let path = parent_path parent in
      unless_error (request_error parent request) (
        if leb settings.max_delegation_depth parent.delegation_depth
        then err delegation_depth
        else if contains (child_identity request) path
        then err delegation_cycle
        else ceiling parent request (path ++ child_identity request ∷ [])
            (factory.runtime_for request.child_agent_id request.child_agent_version s))

  abbrev pub new_id : String → Method (Composer S) String
  new_id prefix c = (ok (settings.new_id prefix c.ids_made), record c { ids_made = c.ids_made + 1 })

  abbrev pub delegated_ids : String → Composer S → List String
  delegated_ids execution_id c = or_else (get execution_id c.delegation_ids) []

  -- The delegation ID: `setdefault`, the test, the ID added.
  unfoldable pub claim_id : ExecutionContext → DelegationRequest → Method (Composer S) (Unit {0})
  claim_id parent request c =
      let used = delegated_ids parent.execution_id c in
      let kept = record c { delegation_ids = put parent.execution_id used c.delegation_ids } in
      if contains request.delegation_id used then (err delegation_error, kept) else (
        ok tt,
        record kept {
          delegation_ids =
              put parent.execution_id (used ++ request.delegation_id ∷ []) kept.delegation_ids;
          identity_counter = c.identity_counter + 1;
        },
      )

  abbrev pub child_name : String → ℕ → Composer S → String
  child_name prefix id c =
      append (settings.new_id prefix id) (append "-" (settings.decimal c.identity_counter))

  -- The IDs of the child's execution and state, which must be new.
  unfoldable pub name_child : Method (Composer S) (String × String)
  name_child c =
      let execution_id = child_name "child_execution" c.ids_made c in
      let state_id = child_name "child_state" (c.ids_made + 1) c in
      let made = record c { ids_made = c.ids_made + 2 } in
      if contains execution_id c.child_execution_ids
      then (err delegation_error, made)
      else if contains state_id c.child_state_ids
      then (err delegation_error, made)
      else (
        ok (execution_id, state_id),
        record made {
          child_execution_ids = c.child_execution_ids ++ execution_id ∷ [];
          child_state_ids = c.child_state_ids ++ state_id ∷ [];
        },
      )

  -- What is done under the lock.
  unfoldable pub reserve :
      ExecutionContext → DelegationRequest → Method (Composer S) (String × String)
  reserve parent request = do claim_id parent request; name_child

  abbrev pub delegated :
      ExecutionContext → DelegationRequest → Ceiling → String → DelegatedExecutionContext
  delegated parent request limits execution_id = record {
    delegation_id = request.delegation_id;
    correlation_id = parent.correlation_id;
    parent_execution_id = parent.execution_id;
    parent_agent_id = parent.agent_id;
    parent_agent_version = parent.agent_version;
    child_execution_id = execution_id;
    child_agent_id = limits.child.trusted_agent_identity.0;
    child_agent_version = limits.child.trusted_agent_identity.1;
    principal = parent.principal;
    authorized_tool_ids = limits.tool_ids;
    authorized_tool_versions = limits.tool_versions;
    granted_permissions = limits.permissions;
    max_steps = limits.max_steps;
    max_risk_level = limits.risk_level;
    delegation_depth = parent.delegation_depth + 1;
    delegation_path = limits.path;
  }

  abbrev pub read_clock : Method (Composer S) ℕ
  read_clock c = (ok (settings.clock c.clock_reads), record c { clock_reads = c.clock_reads + 1 })

  abbrev pub on_agents : {A : Type 0} → Method S A → Method (Composer S) A
  on_agents m c = ((m c.agents).0, record c { agents = (m c.agents).1 })

  abbrev pub returns : {A : Type 0} → Result A → Method (Composer S) A
  returns r c = (r, c)

  abbrev pub delegation_result :
      ExecutionContext
      → DelegationRequest
      → DelegatedExecutionContext
      → AgentOutcome
      → ℕ
      → DelegationResult
  delegation_result parent request context outcome now = record {
    delegation_id = request.delegation_id;
    parent_execution_id = parent.execution_id;
    child_execution_id = context.child_execution_id;
    correlation_id = context.correlation_id;
    delegation_depth = context.delegation_depth;
    context = context;
    outcome = outcome;
    created_at = now;
  }

  -- The child's run, once its identity is reserved.
  unfoldable pub run_child :
      ExecutionContext
      → DelegationRequest
      → Ceiling
      → String × String
      → Method (Composer S) DelegationResult
  run_child parent request limits ids = do
    let context = delegated parent request limits ids.0
    outcome ← on_agents (factory.execute limits.child request.input_text ids.1 context)
    now ← read_clock
    pure (delegation_result parent request context outcome now)

  -- `delegate`, once the ceiling is known.
  unfoldable pub delegate_under :
      ExecutionContext → DelegationRequest → Ceiling → Method (Composer S) DelegationResult
  delegate_under parent request limits = do
    ids ← reserve parent request
    raise_if (not (unique limits.path)) value_error
    run_child parent request limits ids

  unfoldable pub delegate :
      ExecutionContext → DelegationRequest → Method (Composer S) DelegationResult
  delegate parent request c =
      after (authorized parent request c.agents) (delegate_under parent request) c
