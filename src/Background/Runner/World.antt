-- ===== src/Background/Runner/World.antt =====
-- background/runner.py: what one run of the job runner reads and writes. The two stores are shared
-- with the other workers: `schedule n` is the list of the calls that they make just before the
-- n-th store call of this worker. The clock and the ID factory answer by the number of the call.
-- The application's handler is a function on the application's own state; sleeping between two
-- attempts changes nothing here and is left out. An audit record (observability/audit.py) keeps
-- what the runner passes but the metadata and the causation; its sink is the default list, which
-- does not fail. `trigger` is the source's `trigger_id`.
use enterprise_agent_harness.Prelude.{
  ℕ, ◌+◌, String, Bool, true, false, Option, none, some, List, [], ◌∷◌, ◌++◌,
}
use enterprise_agent_harness.Method.{Method, Result, ok, err, lease_conflict, dedup_conflict, ◌>>=◌}
use enterprise_agent_harness.Contracts.{AgentOutcome, PrincipalContext}
use enterprise_agent_harness.Background.Leases
use enterprise_agent_harness.Background.Leases.{LeaseStore, Lease}
use enterprise_agent_harness.Background.Deduplication
use enterprise_agent_harness.Background.Deduplication.{DedupStore, DedupRecord}
use enterprise_agent_harness.Background.Events.{
  EventDisposition, FailureCategory, EventEnvelope, trigger_id,
}

-- The arguments that `JobHandler` is called with.
pub record Attempt : Type 0 where
  pub principal : PrincipalContext
  pub input_text : String
  pub correlation_id : String
  pub event : EventEnvelope
  pub attempt : ℕ
  pub execution_id : String

-- How a handler ends: it returns, or raises an `Exception` with these `retryable` and
-- `code.value`, or is interrupted (`KeyboardInterrupt`, `SystemExit`).
pub data HandlerEnd : Type 0 where
  returned : AgentOutcome → HandlerEnd
  raised : Bool → Option String → HandlerEnd
  interrupted : HandlerEnd

pub record DeadLetterRecord : Type 0 where
  pub event_id : String
  pub trigger : String
  pub correlation_id : String
  pub execution_id : Option String
  pub attempt : ℕ
  pub failure_category : FailureCategory
  pub final_disposition : EventDisposition
  pub occurred_at : ℕ

pub record AuditEvent : Type 0 where
  pub audit_id : String
  pub event_type : String
  pub occurred_at : ℕ
  pub execution_id : String
  pub principal_id : String
  pub correlation_id : String
  pub source_event_id : String
  pub trigger : String
  pub attempt : ℕ

pub record JobResult : Type 0 where
  pub disposition : EventDisposition
  pub event_id : String
  pub trigger : String
  pub correlation_id : String
  pub execution_id : Option String
  pub attempt : ℕ
  pub outcome : Option AgentOutcome
  pub failure_category : Option FailureCategory
  pub completed_at : ℕ

-- The calls of other workers between two store calls of this one.
pub record Turn : Type 0 where
  pub lease_calls : List Leases.Call
  pub record_calls : List Deduplication.Call

pub record Environment (A : Type 0) : Type 0 where
  pub handler : Attempt → A → HandlerEnd × A
  pub input_extractor : Option (EventEnvelope → Result String)
  pub sha256 : String → String
  pub id_factory : ℕ → String → String
  pub clock : ℕ → ℕ
  pub schedule : ℕ → Turn
  pub lease_ttl : ℕ
  pub max_attempts : ℕ

pub record World (A : Type 0) : Type 0 where
  pub leases : LeaseStore
  pub records : DedupStore
  pub dead_letters : List DeadLetterRecord
  pub audit : List AuditEvent
  pub ids : ℕ
  pub ticks : ℕ
  pub turns : ℕ
  pub app : A

abbrev pub Run : Type 0 → Type 0 → Type 0
Run A B = Method (World A) B

module _ {A : Type 0} (env : Environment A) where
  unfoldable pub new_id : String → Run A String
  new_id prefix w = (ok (env.id_factory w.ids prefix), record w { ids = w.ids + 1 })

  unfoldable pub read_clock : Run A ℕ
  read_clock w = (ok (env.clock w.ticks), record w { ticks = w.ticks + 1 })

  -- The other workers have their turn, then the call is made.
  unfoldable pub yield_turn : World A → World A
  yield_turn w = record w {
    leases = Leases.perform_all (env.schedule w.turns).lease_calls w.leases;
    records = Deduplication.perform_all (env.schedule w.turns).record_calls w.records;
    turns = w.turns + 1;
  }

  unfoldable pub on_leases {ℓ} : {B : Type ℓ} → Method LeaseStore B → Method (World A) B
  on_leases m w = let w' = yield_turn w in ((m w'.leases).0, record w' { leases = (m w'.leases).1 })

  unfoldable pub on_records {ℓ} : {B : Type ℓ} → Method DedupStore B → Method (World A) B
  on_records m w =
      let w' = yield_turn w in ((m w'.records).0, record w' { records = (m w'.records).1 })

  -- `self._audit.record(...)`, whose sink does not fail.
  unfoldable pub audit_record :
      PrincipalContext → EventEnvelope → String → String → String → ℕ → Run A (Unit {0})
  unfolding new_id read_clock
  audit_record principal event event_type execution_id correlation_id attempt = do
    audit_id ← new_id "audit"
    now ← read_clock
    λ w. (
      ok tt,
      record w {
        audit =
            w.audit
            ++ (record {
              audit_id = audit_id;
              event_type = event_type;
              occurred_at = now;
              execution_id = execution_id;
              principal_id = principal.principal_id;
              correlation_id = correlation_id;
              source_event_id = event.event_id;
              trigger = trigger_id event;
              attempt = attempt;
            })
              ∷ [];
      },
    )

  unfoldable pub record_dead_letter : DeadLetterRecord → Run A (Unit {0})
  record_dead_letter letter w = (ok tt, record w { dead_letters = w.dead_letters ++ letter ∷ [] })

  unfoldable pub call_handler : Attempt → Run A HandlerEnd
  call_handler a w = (ok (env.handler a w.app).0, record w { app = (env.handler a w.app).1 })

-- `try: ... except DeduplicationConflictError`, as whether the call went through.
abbrev pub caught_conflict : Result (Unit {0}) → Result Bool
caught_conflict (ok done) = ok true
caught_conflict (err dedup_conflict) = ok false
caught_conflict (err e) = err e

unfoldable pub unless_conflict : {A : Type 0} → Run A (Unit {0}) → Run A Bool
unless_conflict m w = (caught_conflict (m w).0, (m w).1)

-- `try: ... except LeaseConflictError`
abbrev pub caught_lease : Result Lease → Result (Option Lease)
caught_lease (ok lease) = ok (some lease)
caught_lease (err lease_conflict) = ok none
caught_lease (err e) = err e

unfoldable pub unless_leased : {A : Type 0} → Run A Lease → Run A (Option Lease)
unless_leased m w = (caught_lease (m w).0, (m w).1)
