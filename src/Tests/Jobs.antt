-- ===== src/Tests/Jobs.antt =====
-- The job runner at a concrete worker, event and world.
use Prim.Native.String.{◌++◌ as append}
use enterprise_agent_harness.Prelude.{
  ℕ, zero, suc, ◌+◌, ◌≤◌, String, ◌≡◌, refl, false, none, some, [], ◌∷◌, blank, arith, string_eq,
  if_case, if◌then◌else◌, leb, beq_distinct,
}
use enterprise_agent_harness.Dict.{get, put, remove}
use enterprise_agent_harness.Method.{ok}
use enterprise_agent_harness.Contracts.{PrincipalContext}
use enterprise_agent_harness.Background.Leases
use enterprise_agent_harness.Background.Leases.{Lease}
use enterprise_agent_harness.Background.Deduplication
use enterprise_agent_harness.Background.Deduplication.{
  DedupStatus, DedupRecord, progress_call, mark_in_progress, mark_terminal, require_claim,
}
use enterprise_agent_harness.Background.Events.{EventDisposition, EventEnvelope, dedup_key}
use enterprise_agent_harness.Background.Runner.World.{
  Environment, World, JobResult, Turn, returned, new_id, read_clock, yield_turn, on_leases,
  on_records, audit_record, call_handler, unless_conflict, unless_leased,
}
use enterprise_agent_harness.Background.Deduplication.Terminal.{AllMarks}
use enterprise_agent_harness.Background.Runner.Handle.{
  finally, resolve_input, proceed, handle, hold, contend, enter, dispatch, run, work, answer,
  conclude,
}
use enterprise_agent_harness.Background.Runner.Attempts.{
  claim, end_record, note, succeeded, succeed, retry_or_stop, settle, attempt_once, attempt_if,
  round, attempt_loop,
}
use enterprise_agent_harness.Background.Runner.Backed.{Holds}
use enterprise_agent_harness.Background.Runner.Settlement.{run-Backed}
use enterprise_agent_harness.Background.Runner.Bounds.{calls-run}
use enterprise_agent_harness.Background.Runner.Release.{is_held_by, contend_releases}
use enterprise_agent_harness.Background.Runner.Stranded.{IsRefused, run_stranded}
use enterprise_agent_harness.Background.Runner.Duplicates.{run-settled, run_twice}
use enterprise_agent_harness.Tests.Stores.{outcome, record_of}

abbrev ada : PrincipalContext
ada = record { principal_id = "ada"; tenant_id = "acme"; session_id = "s1" }

abbrev order : EventEnvelope
order = record {
  event_id = "evt_1";
  event_type = "order.created";
  source = "shop";
  correlation_id = none;
  causation_id = none;
  deduplication_key = some "order";
}

-- The n-th ID of a prefix: the number in unary.
abbrev numbered : ℕ → String → String
numbered zero prefix = prefix
numbered (suc n) prefix = append (numbered n prefix) "i"

abbrev idle : ℕ → Turn
idle n = record { lease_calls = []; record_calls = [] }

-- The application counts the calls of its handler, which succeeds.
abbrev worker : (ℕ → Turn) → Environment ℕ
worker schedule = record {
  handler = λ a n. (returned outcome, n + 1);
  input_extractor = none;
  sha256 = λ text. text;
  id_factory = numbered;
  clock = λ n. n;
  schedule = schedule;
  lease_ttl = 60;
  max_attempts = 2;
}

abbrev start : World ℕ
start = record {
  leases = [];
  records = [];
  dead_letters = [];
  audit = [];
  ids = 0;
  ticks = 0;
  turns = 0;
  app = 0;
}

-- Another worker tries to claim the event at every turn.
abbrev rival : ℕ → Turn
rival n = record {
  lease_calls = [];
  record_calls = progress_call n "order" "run_2" 1 "event:1" "other" 0 ∷ [];
}

-- It tries from the turn after the claim of this run on.
abbrev late_rival : ℕ → Turn
late_rival n = if leb 3 n then rival n else idle n

run-Backed_example :
    Holds "order"
      (λ r. (r.status ≡ DedupStatus.completed) × (r.outcome ≡ some outcome))
      (run (worker late_rival) ada order (some "go") start).1.records
unfolding run dispatch enter contend hold finally handle proceed resolve_input work answer conclude
    attempt_loop round attempt_if attempt_once settle succeed succeeded retry_or_stop claim
    end_record note new_id read_clock yield_turn on_leases on_records audit_record call_handler
    unless_conflict unless_leased dedup_key blank get put remove Leases.acquire Leases.release
    Leases.perform_all Deduplication.perform_all Deduplication.perform mark_in_progress
    mark_terminal require_claim
run-Backed_example =
    run-Backed (worker late_rival)
      (λ n. if_case (λ (t : Turn). AllMarks t.record_calls) (leb 3 n) (tt, tt) tt) ada order
      (some "go") start

calls-run_example : (run (worker late_rival) ada order (some "go") start).1.app ≤ 0 + 2
calls-run_example =
    calls-run (worker late_rival) (λ n. n) (λ a n. omega arith) ada order (some "go") start

contend_releases_example :
    is_held_by "lease"
      (get "order" (contend (worker idle) ada order (some "go") "lease" start).1.leases)
    ≡ false
unfolding dedup_key blank
contend_releases_example =
    contend_releases (worker idle) ada order (some "go") "lease" start refl refl (omega arith)

abbrev stranded : World ℕ
stranded = record start { records = ("order", record_of DedupStatus.in_progress none) ∷ [] }

run_stranded_example : IsRefused "order" "a" 0 0 (run (worker idle) ada order (some "go") stranded)
unfolding dedup_key blank get
run_stranded_example =
    run_stranded (worker idle) (λ n. refl) ada order (some "go") "a" 0 stranded
      (record {
        held = record_of DedupStatus.in_progress none;
        found = refl;
        working = refl;
        owned = refl;
        versioned = refl;
        unleased = refl;
      })
      (beq_distinct "a" "lease" refl) refl refl (omega arith)

abbrev done : World ℕ
done = record start { records = ("order", record_of DedupStatus.completed (some outcome)) ∷ [] }

run-settled_example : (run (worker rival) ada order (some "go") done).1.app ≡ 0
unfolding dedup_key get
run-settled_example = run-settled (worker rival) ada order (λ n. (tt, tt)) (some "go") done refl

first_run :
    (j : JobResult) × ((run (worker idle) ada order (some "go") start).0 ≡ ok j)
    × (j.disposition ≡ EventDisposition.completed)
unfolding run dispatch enter contend hold finally handle proceed resolve_input work answer conclude
    attempt_loop round attempt_if attempt_once settle succeed succeeded retry_or_stop claim
    end_record note new_id read_clock yield_turn on_leases on_records audit_record call_handler
    unless_conflict unless_leased dedup_key blank get put remove Leases.acquire Leases.release
    Leases.perform_all Deduplication.perform_all mark_in_progress mark_terminal require_claim
first_run = (_, refl, refl)

run_twice_example :
    let w = (run (worker idle) ada order (some "go") start).1 in
    ((j : JobResult) × ((run (worker idle) ada order (some "go") w).0 ≡ ok j)
      × (j.disposition ≡ EventDisposition.duplicate)
      × (j.outcome ≡ first_run.0.outcome))
    × ((run (worker idle) ada order (some "go") w).1.app ≡ w.app)
run_twice_example =
    run_twice (worker idle) ada order (λ n. tt) (some "go") (some "go") start {j = first_run.0}
      first_run.1 first_run.2
