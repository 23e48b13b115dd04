-- ===== src/Tools/Invocation.antt =====
-- tools/registry.py: one round of the retry loop of `ToolRegistry.invoke`. Tracing and latencies are
-- left out.
use enterprise_agent_harness.Prelude.{
  ℕ, ◌+◌, ◌-◌, String, Bool, true, false, ◌&&◌, Option, none, some, [], ◌∷◌, ◌++◌, string_eq,
  option_eq, if◌then◌else◌,
}
use enterprise_agent_harness.Dict.{Dict, put}
use enterprise_agent_harness.Method.{Result, ok, err, Error, tool_invocation}
use enterprise_agent_harness.Contracts.{
  kind_eq, ToolResultStatus, ExecutionContext, ToolResult, ToolExecutionRecord,
}
use enterprise_agent_harness.Tools.Definitions.{ToolDefinition}
use enterprise_agent_harness.Tools.Invoke.{Failure, result, failure, invoke}
use enterprise_agent_harness.Tools.Registry.{CacheKey, cache_key_eq}
use enterprise_agent_harness.Tools.Retry.{
  Caller, World, AttemptEnd, ended, aborted, Action, Step, again, leave, should_retry,
  should_retry_result, reason_code, is_failed, is_cacheable, failure_status, waited, has_run,
  abort_code, key_text,
}

module _ {Args A : Type 0} (caller : Caller Args A) where
  abbrev pub digest_key : Option CacheKey → Option String
  digest_key none = none
  digest_key (some key) = some (caller.sha256 (key_text key))

  -- `_record_execution`
  unfoldable pub record_execution :
      ExecutionContext
      → ToolDefinition
      → ToolResultStatus
      → ℕ
      → Option String
      → Option String
      → World A
      → World A
  record_execution context tool status attempts key_digest error_code w =
      let entry : ToolExecutionRecord = record {
        execution_id = context.execution_id;
        tool_id = tool.tool_id;
        tool_version = tool.version;
        status = status;
        attempts = attempts;
        retry_count = attempts - 1;
        timeout_seconds = tool.timeout_seconds;
        idempotency_key_digest = key_digest;
        error_code = error_code;
      } in
      record w {
        registry = record w.registry {
          execution_records = w.registry.execution_records ++ entry ∷ [];
        };
      }

  -- `_with_execution_metadata`
  abbrev pub with_timeout : Option ℕ → Dict String String → Dict String String
  with_timeout none metadata = metadata
  with_timeout (some seconds) metadata = put "timeout_seconds" (caller.decimal seconds) metadata

  abbrev pub with_metadata : ToolDefinition → ℕ → ToolResult → ToolResult
  with_metadata tool attempts r = record r {
    metadata = with_timeout tool.timeout_seconds (
        put "retry_count" (caller.decimal (attempts - 1))
          (put "attempts" (caller.decimal attempts) r.metadata));
  }

  -- `_run_with_timeout(lambda: tool.invoke(context, arguments), ...)`
  unfoldable pub run_attempt : Action Args → World A → AttemptEnd × World A
  run_attempt action w =
      let a = caller.arrives_before w.runs w.app in
      let o = invoke caller.application action.tool action.context action.arguments a in
      (
        waited (caller.timing w.runs) o.0,
        record w {
          runs = w.runs + 1;
          app =
              caller.arrives_after w.runs
                (if has_run (caller.timing w.runs) (caller.started w.runs) then o.1 else a);
        },
      )

  abbrev pub store_if : Bool → Option CacheKey → String → ToolResult → World A → World A
  store_if true (some key) digest r w = record w {
    registry = record w.registry {
      idempotency =
          put key (record { argument_digest = digest; result = r }) w.registry.idempotency;
    };
  }
  store_if _ _ digest r w = w

  -- The record of an attempt that ends the method, and its end.
  abbrev pub give_up :
      Action Args → ToolResultStatus → ℕ → String → Error → World A → Step × World A
  give_up action status attempt code e w = (
    leave (err e),
    record_execution action.context action.tool status attempt (digest_key action.cache_key)
        (some code) w,
  )

  abbrev pub give_result : Action Args → ℕ → ToolResult → World A → Step × World A
  give_result action attempt r w = (
    leave (ok r),
    record_execution action.context action.tool r.status attempt (digest_key action.cache_key)
        r.error_code w,
  )

  -- `_sleep`, then `continue`.
  abbrev pub paused : Option Error → Error → Step
  paused none e = again e
  paused (some cut) e = leave (err cut)

  abbrev pub sleep_then : Error → World A → Step × World A
  sleep_then e w = (paused (caller.pause w.pauses) e, record w { pauses = w.pauses + 1 })

  -- `_admit_retry`: without a callback every retry is admitted; one that raises ends the method.
  abbrev pub admitted : Option (A → Result Bool × A) → World A → Result Bool × World A
  admitted none w = (ok true, w)
  admitted (some callback) w = ((callback w.app).0, record w { app = (callback w.app).1 })

  abbrev pub after_admission :
      Result Bool
      → (World A → Step × World A)
      → (World A → Step × World A)
      → World A
      → Step × World A
  after_admission (err e) retry refuse w = (leave (err e), w)
  after_admission (ok true) retry refuse w = retry w
  after_admission (ok false) retry refuse w = refuse w

  -- A `ToolInvocationError` of the attempt.
  unfoldable pub on_failure : Action Args → ℕ → Failure → World A → Step × World A
  on_failure action attempt f w =
      if should_retry action f attempt
      then after_admission (admitted caller.retry_admission w).0
          (sleep_then (tool_invocation f.code))
          (give_up action ToolResultStatus.failed attempt f.code (tool_invocation f.code))
          (admitted caller.retry_admission w).1
      else give_up action (failure_status f.code) attempt f.code (tool_invocation f.code) w

  -- A result of the attempt that is not retried: it is cached if it can be.
  unfoldable pub conclude : Action Args → ℕ → ToolResult → World A → Step × World A
  conclude action attempt r w =
      let final = with_metadata action.tool attempt r in
      give_result action attempt final
        (store_if (is_cacheable final.status) action.cache_key action.argument_digest final w)

  unfoldable pub on_result : Action Args → ℕ → ToolResult → World A → Step × World A
  on_result action attempt r w =
      if is_failed r.status && should_retry_result action r attempt
      then after_admission (admitted caller.retry_admission w).0
          (sleep_then (tool_invocation (reason_code r.error_code)))
          (give_result action attempt (with_metadata action.tool attempt r))
          (admitted caller.retry_admission w).1
      else conclude action attempt r w

  abbrev pub settle : Action Args → ℕ → AttemptEnd → World A → Step × World A
  settle action attempt (aborted e) w =
      give_up action ToolResultStatus.failed attempt (abort_code e) e w
  settle action attempt (ended (failure f)) w = on_failure action attempt f w
  settle action attempt (ended (result r)) w = on_result action attempt r w
