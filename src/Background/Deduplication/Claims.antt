-- ===== src/Background/Deduplication/Claims.antt =====
-- Who may commit: the worker whose claim the record holds, and no other.
use enterprise_agent_harness.Prelude.{
  ℕ, String, ◌≡◌, ◌≢◌, true, false, Option, some, arith, string_eq, option_eq, nat_eq, eq_iff,
  blank,
}
use enterprise_agent_harness.Dict.{get, get-put_self}
use enterprise_agent_harness.Method.{ok, err, dedup_conflict}
use enterprise_agent_harness.Contracts.{AgentOutcome}
use enterprise_agent_harness.Background.Deduplication.{
  DedupStatus, DedupRecord, DedupStore, is_terminal, status_eq, mark_in_progress,
  mark_pending_approval, mark_terminal,
}

-- Once another worker has claimed the event, with whatever execution and lease version, the
-- older claim can neither end the event nor park it: both calls raise the conflict and change
-- nothing.
pub claim_supersedes :
    (now : ℕ) (key execution_id : String) (attempt : ℕ) (correlation_id owner : String)
    (version : ℕ) (s : DedupStore) (later : ℕ) (status : DedupStatus) (outcome : AgentOutcome)
    (result : Option AgentOutcome) (old_execution old_owner : String) (old_version : ℕ)
    → (mark_in_progress now key execution_id attempt correlation_id owner version s).0 ≡ ok tt
    → old_owner ≢ owner
    → is_terminal status ≡ true
    → let s' = (mark_in_progress now key execution_id attempt correlation_id owner version s).1 in
      (mark_terminal later key status result old_execution old_owner old_version s'
        ≡ (err dedup_conflict, s'))
      × (mark_pending_approval later key old_execution old_owner old_version outcome s'
          ≡ (err dedup_conflict, s'))
unfolding mark_in_progress mark_terminal mark_pending_approval
claim_supersedes now key execution_id attempt correlation_id owner version s later status outcome
      result old_execution old_owner old_version claimed ne terminal =
    grind (arith, get-put_self, eq_iff owner old_owner)

-- A claim by an owner with a name is refused, and nothing changes, when the event's record waits
-- for approval or is terminal.
pub mark_in_progress_refused :
    (now : ℕ) (key execution_id : String) (attempt : ℕ) (correlation_id owner : String)
    (version : ℕ) (s : DedupStore) {r : DedupRecord}
    → get key s ≡ some r
    → blank owner ≡ false
    → r.status ≢ DedupStatus.in_progress
    → mark_in_progress now key execution_id attempt correlation_id owner version s
      ≡ (err dedup_conflict, s)
unfolding mark_in_progress
mark_in_progress_refused now key execution_id attempt correlation_id owner version s {r} h b ne =
    ground arith
