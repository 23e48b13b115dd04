-- ===== src/Tools/Invoke.antt =====
-- tools/definitions.py: `ToolDefinition.invoke`. The two Pydantic models and the handler are the
-- application's: `accepts` says whether the input model validates the arguments, `dump` validates
-- an output and gives it in normal form, and `call` is the handler, on the application's own state.
use enterprise_agent_harness.Prelude.{
  String, Bool, true, false, ◌||◌, not, Option, none, some, [], ◌==◌, string_eq, if◌then◌else◌,
}
use enterprise_agent_harness.Contracts.{ToolResultStatus, ExecutionContext, ToolResult}
use enterprise_agent_harness.Tools.Definitions.{ToolDefinition}

-- A `ToolInvocationError`; of its cause there is whether it is `retryable`, and whether it is an
-- instance of the exception types that the tool retries.
pub record Failure : Type 0 where
  pub code : String
  pub retryable : Bool
  pub cause_retryable : Bool
  pub cause_listed : Bool

-- How a handler ends: with an envelope, with an output, with a `ToolInvocationError`, or with
-- another exception, of which there are the same two facts.
pub data HandlerEnd : Type 0 where
  enveloped : ToolResult → HandlerEnd
  returned : String → HandlerEnd
  refused : Failure → HandlerEnd
  raised : Bool → Bool → HandlerEnd

pub data Outcome : Type 0 where
  result : ToolResult → Outcome
  failure : Failure → Outcome

pub record Application (Args A : Type 0) : Type 0 where
  pub accepts : ToolDefinition → Args → Bool
  pub dump : ToolDefinition → String → Option String
  pub call : ToolDefinition → ExecutionContext → Args → A → HandlerEnd × A

abbrev pub error_of : String → Failure
error_of code = record {
  code = code;
  retryable = false;
  cause_retryable = false;
  cause_listed = false;
}

-- `_validate_enveloped_result`: whether the envelope names this tool, version and execution.
abbrev pub names_other : Option String → String → Bool
names_other none value = false
names_other (some given) value = not (given == value)

abbrev pub is_foreign : ToolDefinition → ExecutionContext → ToolResult → Bool
is_foreign tool context r =
    not (r.tool_id == tool.tool_id)
    || names_other r.tool_version tool.version
    || names_other r.execution_id context.execution_id

abbrev pub is_succeeded : ToolResultStatus → Bool
is_succeeded ToolResultStatus.succeeded = true
is_succeeded _ = false

-- `model_copy`, with the output in normal form.
abbrev pub stamped : ToolDefinition → ExecutionContext → Option String → ToolResult → ToolResult
stamped tool context output r = record r {
  tool_version = some tool.version;
  execution_id = some context.execution_id;
  output = output;
}

abbrev pub dumped : ToolDefinition → ExecutionContext → ToolResult → Option String → Outcome
dumped tool context r none = failure (error_of "invalid_output")
dumped tool context r (some output) = result (stamped tool context (some output) r)

abbrev pub with_output :
    (ToolDefinition → String → Option String)
    → ToolDefinition
    → ExecutionContext
    → ToolResult
    → Option String
    → Outcome
with_output dump tool context r none =
    if is_succeeded r.status
    then failure (error_of "invalid_output")
    else result (stamped tool context none r)
with_output dump tool context r (some output) = dumped tool context r (dump tool output)

-- The result of a handler that returns a bare output.
abbrev pub plain_result : ToolDefinition → ExecutionContext → ToolResult
plain_result tool context = record {
  tool_id = tool.tool_id;
  tool_version = none;
  execution_id = none;
  output = none;
  metadata = [];
  status = ToolResultStatus.succeeded;
  evidence = [];
  restricted = false;
  conflicts = [];
  injection_flags = [];
  error_code = none;
}

abbrev pub normalize :
    (ToolDefinition → String → Option String)
    → ToolDefinition
    → ExecutionContext
    → HandlerEnd
    → Outcome
normalize dump tool context (enveloped r) =
    if is_foreign tool context r
    then failure (error_of "invalid_result_identity")
    else with_output dump tool context r r.output
normalize dump tool context (returned output) =
    dumped tool context (plain_result tool context) (dump tool output)
normalize dump tool context (refused f) = failure f
normalize dump tool context (raised retryable listed) = failure (record {
  code = "handler_failed";
  retryable = retryable;
  cause_retryable = retryable;
  cause_listed = listed;
})

module _ {Args A : Type 0} (application : Application Args A) where
  unfoldable pub invoke : ToolDefinition → ExecutionContext → Args → A → Outcome × A
  invoke tool context arguments a =
      if application.accepts tool arguments
      then (
        normalize application.dump tool context (application.call tool context arguments a).0,
        (application.call tool context arguments a).1,
      )
      else (failure (error_of "invalid_arguments"), a)
