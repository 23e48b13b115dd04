-- ===== src/Tools/Retry.antt =====
-- tools/registry.py: the state of `ToolRegistry.invoke`, and the tests of its retry loop. The calls
-- of `_run_with_timeout` and `_sleep` wait on threads and clocks: `timing n` says whether the n-th
-- attempt ended in time or was given up, and `pause n` whether the n-th wait was cut short. A
-- handler whose attempt is given up is not stopped: `started n` says whether it had run by then, and
-- `arrives_before n` and `arrives_after n` are what such handlers of earlier attempts still do to the
-- application, before and after the handler of the n-th attempt.
-- The retry admission is the caller's, on the application's own state. SHA-256, the digest of the
-- arguments and Python's `str` of a number are parameters.
use enterprise_agent_harness.Prelude.{
  ℕ, String, Bool, true, false, ◌&&◌, ◌||◌, not, Option, none, some, List, [], ◌∷◌, contains, leb,
  ◌==◌, string_eq, option_eq, is_some, if◌then◌else◌,
}
use enterprise_agent_harness.Dict.{get}
use enterprise_agent_harness.Method.{Result, Error, execution_cancelled, execution_timeout}
use enterprise_agent_harness.Contracts.{
  ToolKind, kind_eq, ToolResultStatus, ExecutionContext, ToolResult,
}
use enterprise_agent_harness.Tools.Definitions.{ToolDefinition, retry_enabled, retry_max_attempts}
use enterprise_agent_harness.Tools.Invoke.{Failure, Outcome, failure, Application}
use enterprise_agent_harness.Tools.Registry.{Registry, CacheKey, cache_key_eq}

-- How the wait for one attempt ends.
pub data Timing : Type 0 where
  in_time tool_timeout cancelled deadline_passed : Timing

pub record Caller (Args A : Type 0) : Type 0 where
  pub application : Application Args A
  pub action_digest : ToolDefinition → Args → String
  pub sha256 : String → String
  pub decimal : ℕ → String
  pub timing : ℕ → Timing
  pub started : ℕ → Bool
  pub arrives_before : ℕ → A → A
  pub arrives_after : ℕ → A → A
  pub pause : ℕ → Option Error
  pub retry_admission : Option (A → Result Bool × A)

pub record World (A : Type 0) : Type 0 where
  pub registry : Registry
  pub runs : ℕ
  pub pauses : ℕ
  pub app : A

-- How one attempt ends: with the tool's outcome, or with an exception of the runtime's.
pub data AttemptEnd : Type 0 where
  ended : Outcome → AttemptEnd
  aborted : Error → AttemptEnd

-- One call: the tool, its context and arguments, and the key of its cache entry.
pub record Action (Args : Type 0) : Type 0 where
  pub tool : ToolDefinition
  pub context : ExecutionContext
  pub arguments : Args
  pub cache_key : Option CacheKey
  pub argument_digest : String

-- `continue` with the last error, or the end of the method.
pub data Step : Type 0 where
  again : Error → Step
  leave : Result ToolResult → Step

abbrev pub max_attempts : ToolDefinition → ℕ
max_attempts tool = if retry_enabled tool then retry_max_attempts tool else 1

abbrev pub is_read : ToolKind → Bool
is_read ToolKind.read = true
is_read _ = false

abbrev pub retry_allowed : {Args : Type 0} → Action Args → Bool
retry_allowed action = is_read action.tool.kind || is_some action.cache_key

abbrev pub never_retried : List String
never_retried =
    "invalid_arguments" ∷ "invalid_output" ∷ "invalid_result_identity" ∷ "invalid_idempotency_key"
    ∷ "idempotency_key_required" ∷ "idempotency_key_reused" ∷ []

unfoldable pub should_retry : {Args : Type 0} → Action Args → Failure → ℕ → Bool
should_retry action f attempt =
    retry_enabled action.tool
    && retry_allowed action
    && not (leb (retry_max_attempts action.tool) attempt)
    && not (contains f.code never_retried)
    && (f.retryable || action.tool.retryable || f.cause_retryable || f.cause_listed)

abbrev pub marked_retryable : ToolResult → Bool
marked_retryable r = get "retryable" r.metadata == some "true"

unfoldable pub should_retry_result : {Args : Type 0} → Action Args → ToolResult → ℕ → Bool
should_retry_result action r attempt =
    retry_enabled action.tool
    && retry_allowed action
    && not (leb (retry_max_attempts action.tool) attempt)
    && (action.tool.retryable || marked_retryable r)

-- `result.error_code or "tool_failed"`
abbrev pub reason_code : Option String → String
reason_code none = "tool_failed"
reason_code (some code) = if code == "" then "tool_failed" else code

abbrev pub is_failed : ToolResultStatus → Bool
is_failed ToolResultStatus.failed = true
is_failed _ = false

-- `status in {SUCCEEDED, EMPTY}`
abbrev pub is_cacheable : ToolResultStatus → Bool
is_cacheable ToolResultStatus.succeeded = true
is_cacheable ToolResultStatus.empty = true
is_cacheable _ = false

abbrev pub failure_status : String → ToolResultStatus
failure_status code =
    if code == "invalid_arguments"
    then ToolResultStatus.invalid_arguments
    else ToolResultStatus.failed

abbrev pub timeout_failure : Failure
timeout_failure = record {
  code = "tool_timeout";
  retryable = true;
  cause_retryable = false;
  cause_listed = false;
}

-- `_run_with_timeout`, when the wait ends so.
abbrev pub waited : Timing → Outcome → AttemptEnd
waited in_time o = ended o
waited tool_timeout o = ended (failure timeout_failure)
waited cancelled o = aborted execution_cancelled
waited deadline_passed o = aborted execution_timeout

-- Whether the handler has run: it has if the wait ends in time.
abbrev pub has_run : Timing → Bool → Bool
has_run in_time started = true
has_run _ started = started

-- `exc.code.value` of the runtime's two exceptions.
abbrev pub abort_code : Error → String
abort_code execution_cancelled = "execution_cancelled"
abort_code _ = "execution_timeout"

abbrev pub key_text : CacheKey → String
key_text (tenant, (principal, (tool, (version, key)))) = key
