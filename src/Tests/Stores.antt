-- ===== src/Tests/Stores.antt =====
-- The lease store and the deduplication store at concrete inputs.
use enterprise_agent_harness.Prelude.{
  ◌≡◌, ◌≢◌, refl, Option, none, some, List, [], ◌∷◌, blank, arith, string_eq, beq_distinct,
}
use enterprise_agent_harness.Dict.{get, put}
use enterprise_agent_harness.Method.{ok, err, lease_conflict, dedup_conflict}
use enterprise_agent_harness.Contracts.{AgentOutcome, OutcomeStatus}
use enterprise_agent_harness.Background.Leases
use enterprise_agent_harness.Background.Leases.{
  Lease, LeaseStore, acquire, release, acquire_call, release_call,
}
use enterprise_agent_harness.Background.Leases.Exclusion.{acquire_excludes}
use enterprise_agent_harness.Background.Deduplication
use enterprise_agent_harness.Background.Deduplication.{
  DedupStatus, DedupRecord, DedupStore, mark_in_progress, mark_terminal, mark_pending_approval,
  put_call, progress_call, terminal_call,
}
use enterprise_agent_harness.Background.Deduplication.Terminal.{
  Ended, perform_all_mark, perform_all_Ended, mark_terminal_once,
}
use enterprise_agent_harness.Background.Deduplication.Claims.{claim_supersedes}

abbrev pub outcome : AgentOutcome
outcome = record {
  outcome_id = "outcome_1";
  execution_id = "run_1";
  agent_id = "triage";
  agent_version = "1.0.0";
  principal_id = "ada";
  tenant_id = "acme";
  status = OutcomeStatus.completed;
  summary = "done";
  safety_flags = [];
}

abbrev lease_of_a : Lease
lease_of_a = record { key = "order"; owner = "a"; expires_at = 70; version = 3 }

abbrev leases_of_a : LeaseStore
leases_of_a = ("order", lease_of_a) ∷ []

abbrev rivals : List Leases.Call
rivals = release_call "order" "b" ∷ acquire_call 20 "order" "b" 5 ∷ []

acquire_excludes_example :
    let leases = Leases.perform_all rivals (acquire 10 "order" "a" 60 []).1 in
    acquire 30 "order" "b" 5 leases ≡ (err lease_conflict, leases)
unfolding acquire get put blank
acquire_excludes_example =
    acquire_excludes 10 "order" "a" 60 []
      {lease = record { key = "order"; owner = "a"; expires_at = 70; version = 0 }} rivals 30 "b" 5
      refl (beq_distinct "b" "a" refl, ((beq_distinct "b" "a" refl, omega arith), tt))
      (beq_distinct "b" "a" refl) (omega arith) refl refl (omega arith)

abbrev taken : Lease
taken = record { key = "order"; owner = "b"; expires_at = 80; version = 0 }

abbrev pub record_of : DedupStatus → Option AgentOutcome → DedupRecord
record_of status result = record {
  deduplication_key = "order";
  status = status;
  execution_id = some "run_1";
  attempt = 1;
  correlation_id = some "event:1";
  outcome = result;
  lease_owner = some "a";
  lease_version = some 0;
  updated_at = 10;
}

abbrev working : DedupStore
working = ("order", record_of DedupStatus.in_progress none) ∷ []

abbrev finished : DedupStore
finished = ("order", record_of DedupStatus.completed (some outcome)) ∷ []

abbrev marks : List Deduplication.Call
marks =
    progress_call 20 "order" "run_2" 1 "event:1" "b" 1
    ∷ terminal_call 30 "order" DedupStatus.failed none "run_2" "b" 1
    ∷ []

perform_all_mark_example :
    get "order" (Deduplication.perform_all marks finished)
    ≡ some (record_of DedupStatus.completed (some outcome))
unfolding get
perform_all_mark_example =
    perform_all_mark marks "order" (record_of DedupStatus.completed (some outcome)) finished
      (tt, (tt, tt)) refl refl

abbrev overwriting : List Deduplication.Call
overwriting =
    put_call (record_of DedupStatus.completed none)
    ∷ put_call (record_of DedupStatus.failed none)
    ∷ []

perform_all_Ended_example :
    Ended "order" DedupStatus.completed (Deduplication.perform_all overwriting finished)
unfolding get
perform_all_Ended_example =
    perform_all_Ended overwriting "order" DedupStatus.completed finished
      (record_of DedupStatus.completed (some outcome), refl, refl, refl)

mark_terminal_once_example :
    (mark_terminal 40 "order" DedupStatus.dead_lettered none "run_1" "a" 0 (
      Deduplication.perform_all marks
        (mark_terminal 20 "order" DedupStatus.completed (some outcome) "run_1" "a" 0 working).1)).0
    ≢ ok tt
unfolding mark_terminal Deduplication.require_claim get put
mark_terminal_once_example =
    mark_terminal_once 20 "order" DedupStatus.completed (some outcome) "run_1" "a" 0 working marks
      40 DedupStatus.dead_lettered none "run_1" "a" 0 refl (tt, (tt, tt))

claim_supersedes_example :
    let s = (mark_in_progress 20 "order" "run_2" 1 "event:1" "b" 1 working).1 in
    (mark_terminal 30 "order" DedupStatus.completed (some outcome) "run_1" "a" 0 s
      ≡ (err dedup_conflict, s))
    × (mark_pending_approval 30 "order" "run_1" "a" 0 outcome s ≡ (err dedup_conflict, s))
unfolding mark_in_progress get put blank
claim_supersedes_example =
    claim_supersedes 20 "order" "run_2" 1 "event:1" "b" 1 working 30 DedupStatus.completed outcome
      (some outcome) "run_1" "a" 0 refl (beq_distinct "a" "b" refl) refl
