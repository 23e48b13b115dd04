-- ===== src/Tools/Execution.antt =====
-- tools/registry.py: the retry loop of `ToolRegistry.invoke`, and the method itself. A round is one
-- attempt; the loop goes round `max_attempts` times at most.
use enterprise_agent_harness.Prelude.{
  ℕ, zero, suc, ◌+◌, String, Bool, false, ◌&&◌, not, Option, none, some, blank, ◌==◌, string_eq,
  pair_eq, is_some, or_else, if◌then◌else◌,
}
use enterprise_agent_harness.Dict.{Dict, get, put}
use enterprise_agent_harness.Method.{Result, ok, err, Error, assertion_error, tool_invocation}
use enterprise_agent_harness.Contracts.{ToolResultStatus, ExecutionContext, ToolResult}
use enterprise_agent_harness.Tools.Definitions.{ToolDefinition}
use enterprise_agent_harness.Tools.Registry.{CacheKey, cache_key_eq, IdempotencyEntry, find}
use enterprise_agent_harness.Tools.Invocation.{record_execution, digest_key, run_attempt, settle}
use enterprise_agent_harness.Tools.Retry.{Caller, World, Action, Step, again, leave, max_attempts}

-- The arguments of `invoke`.
pub record Request (Args : Type 0) : Type 0 where
  pub tool_id : String
  pub context : ExecutionContext
  pub arguments : Args
  pub version : Option String
  pub idempotency_key : Option String

abbrev pub has_blank_key : Option String → Bool
has_blank_key none = false
has_blank_key (some key) = blank key

abbrev pub cache_key : ToolDefinition → ExecutionContext → Option String → Option CacheKey
cache_key tool context none = none
cache_key tool context (some key) = some (
  context.principal.tenant_id,
  (context.principal.principal_id, (tool.tool_id, (tool.version, key))),
)

-- What follows a round.
abbrev pub continue_or_end :
    {A : Type 0}
    → Step
    → (Error → World A → Result ToolResult × World A)
    → World A
    → Result ToolResult × World A
continue_or_end (again e) next w = next e w
continue_or_end (leave end) next w = (end, w)

module _ {Args A : Type 0} (caller : Caller Args A) where
  unfoldable pub invoke_loop :
      Action Args → ℕ → ℕ → Option Error → World A → Result ToolResult × World A
  invoke_loop action zero attempts last w = (err (or_else last assertion_error), w)
  invoke_loop action (suc rounds) attempts last w =
      let attempt = run_attempt caller action w in
      let step = settle caller action (attempts + 1) attempt.0 attempt.1 in
      continue_or_end step.0 (λ e. invoke_loop action rounds (attempts + 1) (some e)) step.1

  unfoldable pub invoke_locked : Action Args → World A → Result ToolResult × World A
  invoke_locked action w = invoke_loop action (max_attempts action.tool) 0 none w

  -- The result of a cached entry, for another execution.
  unfoldable pub replayed : ExecutionContext → ToolResult → ToolResult
  replayed context r = record r {
    execution_id = some context.execution_id;
    metadata =
        put "idempotent_replay" "true"
          (put "retry_count" (caller.decimal 0) (put "attempts" (caller.decimal 1) r.metadata));
  }

  -- The lookup in the cache.
  unfoldable pub invoke_cached :
      Action Args → Option IdempotencyEntry → World A → Result ToolResult × World A
  invoke_cached action none w = invoke_locked action w
  invoke_cached action (some cached) w =
      let again_result = replayed action.context cached.result in
      if not (cached.argument_digest == action.argument_digest)
      then (
        err (tool_invocation "idempotency_key_reused"),
        record_execution caller action.context action.tool ToolResultStatus.failed 1
            (digest_key caller action.cache_key) (some "idempotency_key_reused") w,
      )
      else (
        ok again_result,
        record_execution caller action.context action.tool again_result.status 1
            (digest_key caller action.cache_key) again_result.error_code w,
      )

  abbrev pub entry_at : Option CacheKey → Dict CacheKey IdempotencyEntry → Option IdempotencyEntry
  entry_at none cache = none
  entry_at (some key) cache = get key cache

  abbrev pub action_of : Request Args → ToolDefinition → Action Args
  action_of request tool = record {
    tool = tool;
    context = request.context;
    arguments = request.arguments;
    cache_key = cache_key tool request.context request.idempotency_key;
    argument_digest = caller.action_digest tool request.arguments;
  }

  abbrev pub refuse :
      Request Args
      → ToolDefinition
      → ToolResultStatus
      → String
      → World A
      → Result ToolResult × World A
  refuse request tool status code w = (
    err (tool_invocation code),
    record_execution caller request.context tool status 1 none (some code) w,
  )

  -- `invoke`, with the tool found.
  unfoldable pub invoke_tool : Request Args → ToolDefinition → World A → Result ToolResult × World A
  invoke_tool request tool w =
      if not (caller.application.accepts tool request.arguments)
      then refuse request tool ToolResultStatus.invalid_arguments "invalid_arguments" w
      else if has_blank_key request.idempotency_key
      then refuse request tool ToolResultStatus.failed "invalid_idempotency_key" w
      else if tool.idempotency_required && not (is_some request.idempotency_key)
      then refuse request tool ToolResultStatus.permission_denied "idempotency_key_required" w
      else invoke_cached (action_of request tool)
          (entry_at (cache_key tool request.context request.idempotency_key) w.registry.idempotency)
          w

  abbrev pub invoke_found :
      Result ToolDefinition → Request Args → World A → Result ToolResult × World A
  invoke_found (err e) request w = (err e, w)
  invoke_found (ok tool) request w = invoke_tool request tool w

  unfoldable pub invoke : Request Args → World A → Result ToolResult × World A
  invoke request w = invoke_found (find request.tool_id request.version false w.registry) request w
