-- ===== src/Background/Runner/Handle.antt =====
-- background/runner.py: `BackgroundJobRunner.run`, from the first lookup to the `finally`.
use Prim.Native.String.{◌++◌ as append}
use enterprise_agent_harness.Prelude.{
  ℕ, String, Bool, true, false, Option, none, some, or_else, if◌then◌else◌,
}
use enterprise_agent_harness.Method.{Result, pure, gets, ◌>>=◌, ◌>>◌}
use enterprise_agent_harness.Contracts.{AgentOutcome, PrincipalContext}
use enterprise_agent_harness.Background.Leases.{Lease, acquire, release}
use enterprise_agent_harness.Background.Deduplication.{
  DedupStatus, DedupRecord, get_record, settled, mark_pending_approval,
}
use enterprise_agent_harness.Background.Events.{
  EventDisposition, FailureCategory, EventEnvelope, trigger_id, correlation, dedup_key,
}
use enterprise_agent_harness.Background.Runner.World.{
  Environment, World, Run, JobResult, new_id, read_clock, on_leases, on_records, record_dead_letter,
  unless_conflict, unless_leased,
}
use enterprise_agent_harness.Background.Runner.Results.{
  final_disposition, stored_result, lease_conflict_result,
}
use enterprise_agent_harness.Background.Runner.Attempts.{
  Ended, Verdict, unresolved, answered, Job, claim, end_record, note, attempt_loop,
}

-- `try: m finally: release`, where the release's own conflict is passed over.
unfoldable pub finally {ℓ} :
    {A : Type 0} {B : Type ℓ}
    → (World A → Result B × World A)
    → Run A (Unit {0})
    → World A
    → Result B × World A
finally m last w = ((m w).0, (last (m w).1).1)

module _ {A : Type 0} (env : Environment A) where
  module _ (job : Job) where
    abbrev pub final_result : Ended → EventDisposition → ℕ → JobResult
    final_result last disposition now = record {
      disposition = disposition;
      event_id = job.event.event_id;
      trigger = trigger_id job.event;
      correlation_id = correlation job.event;
      execution_id = last.last_execution_id;
      attempt = last.attempts;
      outcome = last.last_outcome;
      failure_category = some last.last_category;
      completed_at = now;
    }

    unfoldable pub parked : Ended → Bool → Run A JobResult
    parked last true = do
      now ← read_clock env
      pure (final_result last EventDisposition.pending_approval now)
    parked last false = lease_conflict_result env job.principal job.event

    unfoldable pub park : Ended → AgentOutcome → String → Run A JobResult
    park last outcome execution_id = do
      now ← read_clock env
      done ← unless_conflict (
          on_records env (
            mark_pending_approval now job.key execution_id job.lease_owner job.lease_version
              outcome))
      parked last done

    -- `last_outcome is None or last_execution_id is None`
    unfoldable pub park_or_conflict : Ended → Option AgentOutcome → Option String → Run A JobResult
    park_or_conflict last (some outcome) (some execution_id) = park last outcome execution_id
    park_or_conflict last _ _ = lease_conflict_result env job.principal job.event

    unfoldable pub buried : Ended → EventDisposition → Bool → Run A JobResult
    buried last disposition true = do
      occurred ← read_clock env
      record_dead_letter env (record {
        event_id = job.event.event_id;
        trigger = trigger_id job.event;
        correlation_id = correlation job.event;
        execution_id = last.last_execution_id;
        attempt = last.attempts;
        failure_category = last.last_category;
        final_disposition = disposition;
        occurred_at = occurred;
      })
      note env job "dead_lettered" (or_else last.last_execution_id (correlation job.event))
          last.attempts
      now ← read_clock env
      pure (final_result last disposition now)
    buried last disposition false = lease_conflict_result env job.principal job.event

    unfoldable pub bury : Ended → EventDisposition → Run A JobResult
    bury last disposition = do
      ended ←
          end_record env job DedupStatus.dead_lettered last.last_outcome
            (or_else last.last_execution_id job.first_execution_id)
      buried last disposition ended

    unfoldable pub conclude_as : EventDisposition → Ended → Run A JobResult
    conclude_as EventDisposition.pending_approval last =
        park_or_conflict last last.last_outcome last.last_execution_id
    conclude_as disposition last = bury last disposition

    -- What follows the loop.
    unfoldable pub conclude : Ended → Run A JobResult
    conclude last = conclude_as (final_disposition last.last_category) last

    unfoldable pub answer : Verdict → Run A JobResult
    answer (unresolved last) = conclude last
    answer (answered r) = pure r

    -- From the `event_received` record on, with the claim held.
    unfoldable pub work : Run A JobResult
    work = do
      verdict ← attempt_loop env job env.max_attempts (record {
        attempts = 0;
        last_outcome = none;
        last_execution_id = none;
        last_category = FailureCategory.permanent;
      })
      answer verdict

  -- `input_text`, or the extractor's text, or a text that names the event.
  unfoldable pub resolve_input : EventEnvelope → Option String → Run A String
  resolve_input event (some text) = pure text
  resolve_input event none = elim env.input_extractor [
    | some extract ↦ λ w. (extract event, w)
    | none ↦
        pure
          (append event.source (append ":" (append event.event_type (append ":" event.event_id))))
  ]

  -- `stored is not None and stored.status != DedupStatus.IN_PROGRESS`
  unfoldable pub answer_conflict :
      PrincipalContext → EventEnvelope → Option DedupRecord → Run A JobResult
  answer_conflict principal event none = lease_conflict_result env principal event
  answer_conflict principal event (some stored) =
      if settled (some stored)
      then stored_result env principal event stored
      else lease_conflict_result env principal event

  -- What follows the claim; `job.input_text` is not known before it.
  unfoldable pub proceed : Job → Option String → Bool → Run A JobResult
  proceed job input_text true = do
    note env job "event_received" (correlation job.event) 0
    text ← resolve_input job.event input_text
    work (record job { input_text = text })
  proceed job input_text false = do
    stored ← on_records env (gets (get_record job.key))
    answer_conflict job.principal job.event stored

  -- The body of the outer `try`, under the lease.
  unfoldable pub handle :
      PrincipalContext → EventEnvelope → Option String → String → Lease → Run A JobResult
  handle principal event input_text owner lease = do
    first_execution_id ← new_id env "execution"
    let start : Job = record {
      principal = principal;
      event = event;
      key = dedup_key env.sha256 event;
      input_text = "";
      lease_owner = owner;
      lease_version = lease.version;
      first_execution_id = first_execution_id;
    }
    claimed ← claim env start first_execution_id 0
    proceed start input_text claimed

  unfoldable pub hold :
      PrincipalContext → EventEnvelope → Option String → String → Option Lease → Run A JobResult
  hold principal event input_text owner none = lease_conflict_result env principal event
  hold principal event input_text owner (some lease) =
      finally (handle principal event input_text owner lease)
        (on_leases env (release (dedup_key env.sha256 event) owner))

  unfoldable pub contend :
      PrincipalContext → EventEnvelope → Option String → String → Run A JobResult
  contend principal event input_text owner = do
    now ← read_clock env
    won ←
        unless_leased (on_leases env (acquire now (dedup_key env.sha256 event) owner env.lease_ttl))
    hold principal event input_text owner won

  unfoldable pub enter : PrincipalContext → EventEnvelope → Option String → Run A JobResult
  enter principal event input_text = do
    owner ← new_id env "lease"
    contend principal event input_text owner

  unfoldable pub dispatch :
      PrincipalContext → EventEnvelope → Option String → Option DedupRecord → Run A JobResult
  dispatch principal event input_text none = enter principal event input_text
  dispatch principal event input_text (some existing) =
      if settled (some existing)
      then stored_result env principal event existing
      else enter principal event input_text

  unfoldable pub run : PrincipalContext → EventEnvelope → Option String → Run A JobResult
  run principal event input_text = do
    existing ← on_records env (gets (get_record (dedup_key env.sha256 event)))
    dispatch principal event input_text existing
