-- ===== src/Composition/Compose.antt =====
-- composition.py: `AgentComposer.compose`, the dispatch of the steps of a composition.
use Prim.Native.String.{◌++◌ as append}
use enterprise_agent_harness.Prelude.{
  ◌+◌, String, Bool, true, false, ◌&&◌, not, Option, none, some, List, [], ◌∷◌, ◌++◌, blank, length,
  is_some, or_else, ◌==◌, nat_eq, string_eq, if◌then◌else◌,
}
use enterprise_agent_harness.Dict.{Dict, get, put}
use enterprise_agent_harness.Method.{
  Method, Result, ok, err, index_error, key_error, composition_error, pure, raise, raise_if, gets,
  modify, ◌>>=◌, ◌>>◌,
}
use enterprise_agent_harness.Contracts.{
  CompositionPattern, OutcomeStatus, ExecutionContext, AgentOutcome,
}
use enterprise_agent_harness.Composition.Contracts.{
  DelegationRequest, DelegationResult, CompositionStep, CompositionDefinition, CompositionResult,
}
use enterprise_agent_harness.Composition.Delegate.{
  Factory, Settings, Composer, new_id, read_clock, returns, delegate,
}

abbrev pub is_completed_status : OutcomeStatus → Bool
is_completed_status OutcomeStatus.completed = true
is_completed_status _ = false

-- `outcome.status == OutcomeStatus.COMPLETED`
abbrev pub is_complete : AgentOutcome → Bool
is_complete o = is_completed_status o.status

abbrev pub is_sequential : CompositionPattern → Bool
is_sequential CompositionPattern.sequential = true
is_sequential _ = false

-- `definition.pattern in {ROUTER, SPECIALIST}`
abbrev pub selects_one : CompositionPattern → Bool
selects_one CompositionPattern.router = true
selects_one CompositionPattern.specialist = true
selects_one _ = false

-- `{step.step_id: step for step in definition.steps}`
abbrev pub by_id : List CompositionStep → Dict String CompositionStep → Dict String CompositionStep
by_id [] found = found
by_id (step ∷ steps) found = by_id steps (put step.step_id step found)

abbrev pub is_unknown : Option String → Dict String CompositionStep → Bool
is_unknown none found = false
is_unknown (some id) found = not (is_some (get id found))

abbrev pub the_step : Option CompositionStep → Result (List CompositionStep)
the_step none = err key_error
the_step (some step) = ok (step ∷ [])

-- The step of a router or of a specialist.
abbrev pub one_step : Option String → List CompositionStep → Result (List CompositionStep)
one_step (some id) steps = the_step (get id (by_id steps []))
one_step none [] = err index_error
one_step none (step ∷ steps) = the_step (get step.step_id (by_id (step ∷ steps) []))

unfoldable pub steps_for_definition :
    CompositionDefinition → Option String → Result (List CompositionStep)
steps_for_definition definition selected =
    if is_unknown selected (by_id definition.steps [])
    then err composition_error
    else if selects_one definition.pattern
    then (if not (is_some selected) && not (length definition.steps == 1)
        then err composition_error
        else one_step selected definition.steps)
    else if is_some selected
    then err composition_error
    else ok definition.steps

-- `_final_outcome`
abbrev pub last_outcome : AgentOutcome → List AgentOutcome → AgentOutcome
last_outcome outcome [] = outcome
last_outcome outcome (next ∷ outcomes) = last_outcome next outcomes

abbrev pub first_incomplete : List AgentOutcome → Option AgentOutcome
first_incomplete [] = none
first_incomplete (outcome ∷ outcomes) =
    let rest = first_incomplete outcomes in if not (is_complete outcome) then some outcome else rest

abbrev pub final_outcome : AgentOutcome → List AgentOutcome → AgentOutcome
final_outcome outcome outcomes =
    or_else (first_incomplete (outcome ∷ outcomes)) (last_outcome outcome outcomes)

module _ {S : Type 0} (factory : Factory S) (settings : Settings) where
  abbrev pub request_of :
      ExecutionContext
      → CompositionDefinition
      → CompositionStep
      → String
      → String
      → DelegationRequest
  request_of parent definition step delegation_id input = record {
    delegation_id = delegation_id;
    parent_execution_id = parent.execution_id;
    parent_agent_id = parent.agent_id;
    parent_agent_version = parent.agent_version;
    child_agent_id = step.agent_id;
    child_agent_version = step.agent_version;
    input_text = input;
    reason = append "composition:" (append definition.composition_id (append ":" step.step_id));
    requested_tool_ids = [];
    requested_permissions = [];
    max_risk_level = some parent.max_risk_level;
  }

  abbrev pub delegation_id_for : CompositionStep → Method (Composer S) String
  delegation_id_for step = do
    modify (λ c. record c { composition_counter = c.composition_counter + 1 })
    id ← new_id factory settings (append "delegation_" step.step_id)
    gets (λ c. append id (append "-" (settings.decimal c.composition_counter)))

  -- One step: the delegation of the input.
  unfoldable pub dispatch :
      ExecutionContext
      → CompositionDefinition
      → CompositionStep
      → String
      → Method (Composer S) DelegationResult
  dispatch parent definition step input = do
    id ← delegation_id_for step
    delegate factory settings parent (request_of parent definition step id input)

  -- The loop over the steps, with the outcomes so far.
  unfoldable pub compose_steps :
      ExecutionContext
      → CompositionDefinition
      → List CompositionStep
      → String
      → List AgentOutcome
      → Method (Composer S) (List AgentOutcome)
  compose_steps parent definition [] input outcomes = pure outcomes
  compose_steps parent definition (step ∷ steps) input outcomes = do
    result ← dispatch parent definition step input
    let sequential = is_sequential definition.pattern
    let gathered = outcomes ++ result.outcome ∷ []
    let rest =
        compose_steps parent definition steps (if sequential then result.outcome.summary else input)
          gathered
    if sequential && not (is_complete result.outcome) then pure gathered else rest

  abbrev pub composed :
      ExecutionContext
      → CompositionDefinition
      → List AgentOutcome
      → Method (Composer S) CompositionResult
  composed parent definition [] = raise composition_error
  composed parent definition (outcome ∷ outcomes) = do
    now ← read_clock factory settings
    pure (record {
      composition_id = definition.composition_id;
      composition_version = definition.version;
      pattern = definition.pattern;
      parent_execution_id = parent.execution_id;
      correlation_id = parent.correlation_id;
      outcomes = outcome ∷ outcomes;
      final_outcome = final_outcome outcome outcomes;
      created_at = now;
    })

  unfoldable pub compose :
      ExecutionContext
      → CompositionDefinition
      → String
      → Option String
      → Method (Composer S) CompositionResult
  compose parent definition input selected = do
    raise_if (blank input) composition_error
    steps ← returns factory settings (steps_for_definition definition selected)
    outcomes ← compose_steps parent definition steps input []
    composed parent definition outcomes
