-- ===== src/Background/Deduplication.antt =====
-- background/deduplication.py: the in-memory store of one record for each event key. The lock
-- makes every method one step, and `now` is what the clock reads in the call. A lease version is
-- a natural number, as the lease store counts from 0, so that the guard of `mark_in_progress`
-- against a negative one does not fire. The constant `schema_version` is left out.
pub mod Claims
pub mod Terminal
use enterprise_agent_harness.Prelude.{
  ℕ, String, Bool, true, false, ◌&&◌, ◌||◌, ◌≡◌, ◌↔◌, not, Option, none, some, List, [], ◌∷◌, blank,
  ltb, nat_eq, arith, Eq, nat_beq, string_eq, option_eq, ◌==◌, if◌then◌else◌,
}
use enterprise_agent_harness.Dict.{Dict, get, put}
use enterprise_agent_harness.Method.{
  Method, value_error, dedup_conflict, pure, gets, or_raise, raise_if, modify, ◌>>=◌, ◌>>◌,
}
use enterprise_agent_harness.Contracts.{AgentOutcome}

pub data DedupStatus : Type 0 where
  in_progress pending_approval completed failed dead_lettered : DedupStatus

-- `status in {COMPLETED, FAILED, DEAD_LETTERED}`
abbrev pub is_terminal : DedupStatus → Bool
is_terminal DedupStatus.completed = true
is_terminal DedupStatus.failed = true
is_terminal DedupStatus.dead_lettered = true
is_terminal _ = false

abbrev pub status_code : DedupStatus → ℕ
status_code DedupStatus.in_progress = 0
status_code DedupStatus.pending_approval = 1
status_code DedupStatus.completed = 2
status_code DedupStatus.failed = 3
status_code DedupStatus.dead_lettered = 4

pub status_beq_iff :
    (a b : DedupStatus) → (nat_beq (status_code a) (status_code b) ≡ true) ↔ (a ≡ b)
status_beq_iff a b = ground arith

instance abbrev pub status_eq : Eq DedupStatus
status_eq = record {
  equal = λ a b. nat_beq (status_code a) (status_code b);
  equal_iff = status_beq_iff;
}

pub record DedupRecord : Type 0 where
  pub deduplication_key : String
  pub status : DedupStatus
  pub execution_id : Option String
  pub attempt : ℕ
  pub correlation_id : Option String
  pub outcome : Option AgentOutcome
  pub lease_owner : Option String
  pub lease_version : Option ℕ
  pub updated_at : ℕ

abbrev pub DedupStore : Type 0
DedupStore = Dict String DedupRecord

-- `InMemoryDeduplicationStore.get`
abbrev pub get_record : String → DedupStore → Option DedupRecord
get_record key records = get key records

-- `existing.status != record.status and existing.status in {...}`
abbrev pub overwrites : Option DedupRecord → DedupRecord → Bool
overwrites none r = false
overwrites (some existing) r = not (existing.status == r.status) && is_terminal existing.status

unfoldable pub put_record : DedupRecord → Method DedupStore (Unit {0})
put_record r = do
  existing ← gets (get r.deduplication_key)
  raise_if (overwrites existing r) dedup_conflict
  modify (put r.deduplication_key r)

-- The three refusals of `mark_in_progress`, in order.
abbrev pub settled : Option DedupRecord → Bool
settled none = false
settled (some existing) = not (existing.status == DedupStatus.in_progress)

-- `None` is neither greater than a version nor equal to one.
abbrev pub claimed_later : Option DedupRecord → ℕ → Bool
claimed_later none version = false
claimed_later (some existing) version =
    existing.status == DedupStatus.in_progress
    && elim existing.lease_version [ none ↦ false | some v ↦ ltb version v ]

abbrev pub claimed_by_other : Option DedupRecord → String → ℕ → Bool
claimed_by_other none owner version = false
claimed_by_other (some existing) owner version =
    existing.status == DedupStatus.in_progress
    && existing.lease_version == some version
    && elim existing.lease_owner [ none ↦ false | some o ↦ not (o == owner) ]

unfoldable pub mark_in_progress :
    ℕ → String → String → ℕ → String → String → ℕ → Method DedupStore (Unit {0})
mark_in_progress now key execution_id attempt correlation_id owner version = do
  raise_if (blank owner) value_error
  existing ← gets (get key)
  raise_if (settled existing) dedup_conflict
  raise_if (claimed_later existing version) dedup_conflict
  raise_if (claimed_by_other existing owner version) dedup_conflict
  modify (
      put key (record {
        deduplication_key = key;
        status = DedupStatus.in_progress;
        execution_id = some execution_id;
        attempt = attempt;
        correlation_id = some correlation_id;
        outcome = none;
        lease_owner = some owner;
        lease_version = some version;
        updated_at = now;
      }))

-- `_require_claim`
abbrev pub claim_matches : DedupRecord → String → String → ℕ → Bool
claim_matches existing execution_id owner version =
    existing.execution_id == some execution_id
    && existing.lease_owner == some owner
    && existing.lease_version == some version

unfoldable pub require_claim : String → String → String → ℕ → Method DedupStore DedupRecord
require_claim key execution_id owner version = do
  found ← gets (get key)
  existing ← or_raise found dedup_conflict
  raise_if (not (claim_matches existing execution_id owner version)) dedup_conflict
  pure existing

unfoldable pub mark_pending_approval :
    ℕ → String → String → String → ℕ → AgentOutcome → Method DedupStore (Unit {0})
unfolding require_claim
mark_pending_approval now key execution_id owner version outcome = do
  existing ← require_claim key execution_id owner version
  raise_if (is_terminal existing.status) dedup_conflict
  modify (
      put key (record existing {
        status = DedupStatus.pending_approval;
        outcome = some outcome;
        updated_at = now;
      }))

-- The record that `mark_terminal` writes over the claimed one.
abbrev pub ended_record :
    ℕ → String → DedupStatus → Option AgentOutcome → String → String → ℕ → DedupRecord → DedupRecord
ended_record now key status outcome execution_id owner version existing = record {
  deduplication_key = key;
  status = status;
  execution_id = some execution_id;
  attempt = existing.attempt;
  correlation_id = existing.correlation_id;
  outcome = outcome;
  lease_owner = some owner;
  lease_version = some version;
  updated_at = now;
}

unfoldable pub mark_terminal :
    ℕ
    → String
    → DedupStatus
    → Option AgentOutcome
    → String
    → String
    → ℕ
    → Method DedupStore (Unit {0})
unfolding require_claim
mark_terminal now key status outcome execution_id owner version = do
  raise_if (not (is_terminal status)) value_error
  existing ← require_claim key execution_id owner version
  raise_if (is_terminal existing.status) dedup_conflict
  modify (put key (ended_record now key status outcome execution_id owner version existing))

-- One call of the store by some worker.
pub data Call : Type 0 where
  put_call : DedupRecord → Call
  progress_call : ℕ → String → String → ℕ → String → String → ℕ → Call
  pending_call : ℕ → String → String → String → ℕ → AgentOutcome → Call
  terminal_call : ℕ → String → DedupStatus → Option AgentOutcome → String → String → ℕ → Call

unfoldable pub perform : Call → DedupStore → DedupStore
perform (put_call r) s = (put_record r s).1
perform (progress_call now key execution_id attempt correlation_id owner version) s =
    (mark_in_progress now key execution_id attempt correlation_id owner version s).1
perform (pending_call now key execution_id owner version outcome) s =
    (mark_pending_approval now key execution_id owner version outcome s).1
perform (terminal_call now key status outcome execution_id owner version) s =
    (mark_terminal now key status outcome execution_id owner version s).1

unfoldable pub perform_all : List Call → DedupStore → DedupStore
perform_all [] s = s
perform_all (c ∷ calls) s = perform_all calls (perform c s)
