-- ===== src/Background/Runner/Attempts.antt =====
-- background/runner.py: the `while` loop of `run`. A round is one attempt; `rounds` is what
-- `max_attempts` leaves, and the loop ends at `max_attempts` or by a `break` or `return`.
use enterprise_agent_harness.Prelude.{
  ℕ, zero, suc, ◌+◌, ◌-◌, String, Bool, true, false, ◌&&◌, Option, none, some, nat_eq, ◌==◌, ltb,
  if◌then◌else◌,
}
use enterprise_agent_harness.Method.{extension_error, pure, raise, ◌>>=◌, ◌>>◌}
use enterprise_agent_harness.Contracts.{AgentOutcome, PrincipalContext}
use enterprise_agent_harness.Background.Deduplication.{DedupStatus, mark_in_progress, mark_terminal}
use enterprise_agent_harness.Background.Events.{
  EventDisposition, FailureCategory, EventEnvelope, trigger_id, correlation,
}
use enterprise_agent_harness.Background.Runner.World.{
  Environment, Run, HandlerEnd, returned, raised, interrupted, JobResult, new_id, read_clock,
  on_records, audit_record, call_handler, unless_conflict,
}
use enterprise_agent_harness.Background.Runner.Results.{
  is_success, classify_exception, classify_outcome, lease_conflict_result,
}

-- The variables of the loop after its last attempt.
pub record Ended : Type 0 where
  pub attempts : ℕ
  pub last_outcome : Option AgentOutcome
  pub last_execution_id : Option String
  pub last_category : FailureCategory

-- How a round ends: `continue`, `break`, or `return` from the method.
pub data Step : Type 0 where
  again : Step
  stop : Ended → Step
  leave : JobResult → Step

pub data Verdict : Type 0 where
  unresolved : Ended → Verdict
  answered : JobResult → Verdict

abbrev pub is_retryable : FailureCategory → Bool
is_retryable FailureCategory.retryable_transient = true
is_retryable _ = false

-- The claim that the runner holds, and the event that it handles.
pub record Job : Type 0 where
  pub principal : PrincipalContext
  pub event : EventEnvelope
  pub key : String
  pub input_text : String
  pub lease_owner : String
  pub lease_version : ℕ
  pub first_execution_id : String

module _ {A : Type 0} (env : Environment A) (job : Job) where
  abbrev pub correlation_id : String
  correlation_id = correlation job.event

  unfoldable pub claim : String → ℕ → Run A Bool
  claim execution_id attempt = do
    now ← read_clock env
    unless_conflict (
        on_records env (
          mark_in_progress now job.key execution_id attempt correlation_id job.lease_owner
            job.lease_version))

  unfoldable pub end_record : DedupStatus → Option AgentOutcome → String → Run A Bool
  end_record status outcome execution_id = do
    now ← read_clock env
    unless_conflict (
        on_records env
          (mark_terminal now job.key status outcome execution_id job.lease_owner job.lease_version))

  unfoldable pub note : String → String → ℕ → Run A (Unit {0})
  note event_type execution_id attempt =
      audit_record env job.principal job.event event_type execution_id correlation_id attempt

  abbrev pub give_up : Run A Step
  give_up = do r ← lease_conflict_result env job.principal job.event; pure (leave r)

  -- What follows `mark_terminal` in the branch of a successful outcome.
  unfoldable pub succeeded : AgentOutcome → String → ℕ → Bool → Run A Step
  succeeded outcome execution_id attempt true = do
    now ← read_clock env
    pure (
        leave (record {
          disposition = EventDisposition.completed;
          event_id = job.event.event_id;
          trigger = trigger_id job.event;
          correlation_id = correlation_id;
          execution_id = some execution_id;
          attempt = attempt;
          outcome = some outcome;
          failure_category = none;
          completed_at = now;
        }))
  succeeded outcome execution_id attempt false = give_up

  unfoldable pub succeed : AgentOutcome → String → ℕ → Run A Step
  succeed outcome execution_id attempt = do
    note "attempt_succeeded" execution_id attempt
    ended ← end_record DedupStatus.completed (some outcome) execution_id
    succeeded outcome execution_id attempt ended

  -- The end of a round whose attempt did not succeed.
  unfoldable pub retry_or_stop : Option AgentOutcome → FailureCategory → String → ℕ → Run A Step
  retry_or_stop outcome category execution_id attempt =
      if is_retryable category && ltb attempt env.max_attempts
      then (do note "retry_scheduled" execution_id attempt; pure again)
      else pure (
          stop (record {
            attempts = attempt;
            last_outcome = outcome;
            last_execution_id = some execution_id;
            last_category = category;
          }))

  unfoldable pub settle : HandlerEnd → String → ℕ → Run A Step
  settle (returned outcome) execution_id attempt =
      if is_success outcome
      then succeed outcome execution_id attempt
      else retry_or_stop (some outcome) (classify_outcome outcome) execution_id attempt
  settle (raised retryable code) execution_id attempt = do
    note "attempt_failed" execution_id attempt
    retry_or_stop none (classify_exception retryable code) execution_id attempt
  settle interrupted execution_id attempt = raise extension_error

  unfoldable pub attempt_once : String → ℕ → Run A Step
  attempt_once execution_id attempt = do
    note "attempt_started" execution_id attempt
    ended ← call_handler env (record {
      principal = job.principal;
      input_text = job.input_text;
      correlation_id = correlation_id;
      event = job.event;
      attempt = attempt - 1;
      execution_id = execution_id;
    })
    settle ended execution_id attempt

  unfoldable pub attempt_if : Bool → String → ℕ → Run A Step
  attempt_if true execution_id attempt = attempt_once execution_id attempt
  attempt_if false execution_id attempt = give_up

  -- One round, of the attempt with this number.
  unfoldable pub round : ℕ → Run A Step
  round attempt = if attempt == 1 then attempt_once job.first_execution_id attempt else (do
    execution_id ← new_id env "execution"
    claimed ← claim execution_id (attempt - 1)
    attempt_if claimed execution_id attempt)

  -- After `again` there are rounds left, as the test of `retry_or_stop` says.
  unfoldable pub attempt_loop : ℕ → Ended → Run A Verdict
  attempt_loop zero last = pure (unresolved last)
  attempt_loop (suc rounds) last = do
    let attempt = last.attempts + 1
    step ← round attempt
    elim step [
      | again ↦ attempt_loop rounds (record last { attempts = attempt })
      | stop ended ↦ pure (unresolved ended)
      | leave r ↦ pure (answered r)
    ]
