-- ===== src/Background/Runner/Results.antt =====
-- background/runner.py: the classifiers at the end of the file, and the answers that handle
-- nothing: `_stored_result`, `_pending_result`, `_duplicate_result`, `_lease_conflict_result`.
use enterprise_agent_harness.Prelude.{
  ℕ, String, Bool, true, false, Option, none, some, any, or_else, string_eq, option_eq, ◌==◌,
  if◌then◌else◌,
}
use enterprise_agent_harness.Method.{pure, ◌>>=◌, ◌>>◌}
use enterprise_agent_harness.Contracts.{
  AgentOutcome, OutcomeStatus, PrincipalContext, is_budget_flag,
}
use enterprise_agent_harness.Background.Deduplication.{DedupRecord, DedupStatus}
use enterprise_agent_harness.Background.Events.{
  EventDisposition, FailureCategory, EventEnvelope, trigger_id, correlation, dedup_key,
}
use enterprise_agent_harness.Background.Runner.World.{
  Environment, Run, JobResult, audit_record, read_clock,
}

abbrev pub is_success : AgentOutcome → Bool
is_success outcome = elim outcome.status [
  | OutcomeStatus.completed ↦ true
  | OutcomeStatus.partial ↦ true
  | _ ↦ false
]

-- `_classify_exception` on an `Exception`: its `retryable` and `code.value`. The runner catches
-- no `KeyboardInterrupt` or `SystemExit`, for which the function has its first line.
abbrev pub classify_exception : Bool → Option String → FailureCategory
classify_exception retryable code =
    if code == some "execution_cancelled"
    then FailureCategory.cancelled
    else if code == some "budget_exhausted"
    then FailureCategory.budget_exhausted
    else if retryable
    then FailureCategory.retryable_transient
    else FailureCategory.permanent

abbrev pub classify_outcome : AgentOutcome → FailureCategory
classify_outcome outcome = elim outcome.status [
  | OutcomeStatus.cancelled ↦ FailureCategory.cancelled
  | OutcomeStatus.escalated ↦ FailureCategory.approval_required
  | OutcomeStatus.failed ↦
      if any is_budget_flag outcome.safety_flags
      then FailureCategory.budget_exhausted
      else FailureCategory.retryable_transient
  | _ ↦ FailureCategory.permanent
]

-- `_final_disposition`; the category is passed through.
abbrev pub final_disposition : FailureCategory → EventDisposition
final_disposition FailureCategory.cancelled = EventDisposition.cancelled
final_disposition FailureCategory.budget_exhausted = EventDisposition.failed
final_disposition FailureCategory.approval_required = EventDisposition.pending_approval
final_disposition _ = EventDisposition.dead_lettered

module _ {A : Type 0} (env : Environment A) (principal : PrincipalContext)
    (event : EventEnvelope) where
  -- `existing.correlation_id or event.correlation_id or f"event:{event.event_id}"`
  abbrev pub stored_correlation : DedupRecord → String
  stored_correlation existing = or_else existing.correlation_id (correlation event)

  abbrev pub stored_execution : DedupRecord → String
  stored_execution existing = or_else existing.execution_id (dedup_key env.sha256 event)

  -- The record that the four methods build.
  abbrev pub job_result :
      EventDisposition → DedupRecord → Option AgentOutcome → Option FailureCategory → ℕ → JobResult
  job_result disposition existing outcome category now = record {
    disposition = disposition;
    event_id = event.event_id;
    trigger = trigger_id event;
    correlation_id = stored_correlation existing;
    execution_id = existing.execution_id;
    attempt = existing.attempt;
    outcome = outcome;
    failure_category = category;
    completed_at = now;
  }

  unfoldable pub duplicate_result : DedupRecord → Run A JobResult
  duplicate_result existing = do
    audit_record env principal event "event_duplicate_deduped" (stored_execution existing)
        (stored_correlation existing) existing.attempt
    now ← read_clock env
    pure (job_result EventDisposition.duplicate existing existing.outcome none now)

  -- `outcome or existing.outcome`
  unfoldable pub pending_result : DedupRecord → Option AgentOutcome → Run A JobResult
  pending_result existing outcome = do
    audit_record env principal event "event_pending_approval_deduped" (stored_execution existing)
        (stored_correlation existing) existing.attempt
    now ← read_clock env
    pure (
        job_result EventDisposition.pending_approval existing
          (elim outcome [ none ↦ existing.outcome | some o ↦ some o ])
          (some FailureCategory.approval_required) now)

  abbrev pub stored_category : Option AgentOutcome → FailureCategory
  stored_category none = FailureCategory.permanent
  stored_category (some outcome) = classify_outcome outcome

  unfoldable pub terminal_result : EventDisposition → DedupRecord → Run A JobResult
  terminal_result disposition existing = do
    audit_record env principal event "event_terminal_deduped" (stored_execution existing)
        (stored_correlation existing) existing.attempt
    now ← read_clock env
    pure (
        job_result disposition existing existing.outcome (some (stored_category existing.outcome))
          now)

  unfoldable pub stored_answer : DedupStatus → DedupRecord → Run A JobResult
  stored_answer DedupStatus.completed existing = duplicate_result existing
  stored_answer DedupStatus.pending_approval existing = pending_result existing none
  stored_answer DedupStatus.failed existing = terminal_result EventDisposition.failed existing
  stored_answer _ existing = terminal_result EventDisposition.dead_lettered existing

  unfoldable pub stored_result : DedupRecord → Run A JobResult
  unfolding stored_answer
  stored_result existing = stored_answer existing.status existing

  unfoldable pub lease_conflict_result : Run A JobResult
  lease_conflict_result = do
    audit_record env principal event "lease_conflict" (correlation event) (correlation event) 0
    now ← read_clock env
    pure (record {
      disposition = EventDisposition.lease_conflict;
      event_id = event.event_id;
      trigger = trigger_id event;
      correlation_id = correlation event;
      execution_id = none;
      attempt = 0;
      outcome = none;
      failure_category = some FailureCategory.lease_lost;
      completed_at = now;
    })
