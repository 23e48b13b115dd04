-- ===== src/Background/Runner/Backed.antt =====
-- What a disposition of `run` says is what the deduplication store holds, also when other workers
-- use the same stores between any two calls.
use enterprise_agent_harness.Prelude.{
  ℕ, zero, suc, ◌+◌, String, ◌≡◌, refl, sym, ◌⊎◌, inl, inr, Bool, true, false, Option, none, some,
  List, [], ◌∷◌, arith, Bool-cases, string_eq, eq_iff, nat_eq, ◌==◌, ◌&&◌, ltb,
}
use enterprise_agent_harness.Dict.{get, get-put}
use enterprise_agent_harness.Method.{Result, ok, err, after, pure}
use enterprise_agent_harness.Contracts.{AgentOutcome, PrincipalContext}
use enterprise_agent_harness.Background.Deduplication.{
  DedupStatus, DedupRecord, DedupStore, settled, mark_in_progress, mark_pending_approval,
  mark_terminal, ended_record, Call, put_call, progress_call, pending_call, terminal_call, perform,
  perform_all,
}
use enterprise_agent_harness.Background.Deduplication.Terminal.{
  AllMarks, IsMark, perform_all_mark, mark_terminal_commits,
}
use enterprise_agent_harness.Background.Events.{EventDisposition, FailureCategory, EventEnvelope}
use enterprise_agent_harness.Background.Runner.World.{
  Environment, World, JobResult, new_id, read_clock, yield_turn, on_records, HandlerEnd, returned,
  raised, interrupted, audit_record, call_handler, unless_conflict,
}
use enterprise_agent_harness.Background.Runner.Results.{
  is_success, classify_exception, classify_outcome, stored_answer, stored_result, duplicate_result,
  pending_result, terminal_result, lease_conflict_result,
}
use enterprise_agent_harness.Background.Runner.Attempts.{
  is_retryable, succeeded, attempt_if, Ended, Step, again, stop, leave, Verdict, unresolved,
  answered, Job, end_record, note, succeed, retry_or_stop, settle, attempt_once, round,
  attempt_loop,
}

abbrev pub Holds : String → (DedupRecord → Type 0) → DedupStore → Type 0
Holds key P s = (r : DedupRecord) × (get key s ≡ some r) × P r

-- What each disposition promises of the event's record.
abbrev pub Supports : String → EventDisposition → Option AgentOutcome → DedupStore → Type 0
Supports key EventDisposition.completed outcome s =
    Holds key (λ r. (r.status ≡ DedupStatus.completed) × (r.outcome ≡ outcome)) s
Supports key EventDisposition.duplicate outcome s =
    Holds key (λ r. (r.status ≡ DedupStatus.completed) × (r.outcome ≡ outcome)) s
Supports key EventDisposition.pending_approval outcome s = settled (get key s) ≡ true
Supports key EventDisposition.lease_conflict outcome s = Unit {0}
Supports key _ outcome s =
    Holds key
      (λ r.
        ((r.status ≡ DedupStatus.dead_lettered) ⊎ (r.status ≡ DedupStatus.failed))
        × (r.outcome ≡ outcome))
      s

perform-settled :
    (c : Call) (key : String) (s : DedupStore)
    → IsMark c
    → settled (get key s) ≡ true
    → settled (get key (perform c s)) ≡ true
unfolding perform mark_in_progress mark_pending_approval mark_terminal
perform-settled (put_call r) key s m h = elim m [ ]
perform-settled (progress_call now k execution_id attempt correlation_id owner version) key s m h =
    grind (arith, get-put, eq_iff k key)
perform-settled (pending_call now k execution_id owner version outcome) key s m h =
    grind (arith, get-put, eq_iff k key)
perform-settled (terminal_call now k status outcome execution_id owner version) key s m h =
    grind (arith, get-put, eq_iff k key)

pub perform_all-settled :
    (calls : List Call) (key : String) (s : DedupStore)
    → AllMarks calls
    → settled (get key s) ≡ true
    → settled (get key (perform_all calls s)) ≡ true
unfolding perform_all
perform_all-settled [] key s m h = h
perform_all-settled (c ∷ calls) key s (m, ms) h =
    perform_all-settled calls key (perform c s) ms (perform-settled c key s m h)

-- A promise outlasts the calls of other workers.
pub perform_all-Supports :
    (d : EventDisposition) (calls : List Call) (key : String) (outcome : Option AgentOutcome)
    (s : DedupStore)
    → AllMarks calls
    → Supports key d outcome s
    → Supports key d outcome (perform_all calls s)
perform_all-Supports EventDisposition.completed calls key outcome s m (r, h, (e, o)) =
    (r, perform_all_mark calls key r s m h (ground arith), (e, o))
perform_all-Supports EventDisposition.duplicate calls key outcome s m (r, h, (e, o)) =
    (r, perform_all_mark calls key r s m h (ground arith), (e, o))
perform_all-Supports EventDisposition.pending_approval calls key outcome s m h =
    perform_all-settled calls key s m h
perform_all-Supports EventDisposition.lease_conflict calls key outcome s m h = tt
perform_all-Supports _ calls key outcome s m (r, h, (e, o)) =
    (r, perform_all_mark calls key r s m h (ground arith), (e, o))

abbrev pub Backed : {A : Type 0} → String → Result JobResult × World A → Type 0
Backed key (ok j, w) = Supports key j.disposition j.outcome w.records
Backed key (err e, w) = Unit {0}

module _ {A : Type 0} (env : Environment A) (principal : PrincipalContext)
    (event : EventEnvelope) where
  pub lease_conflict_result-Backed :
      (key : String) (w : World A) → Backed key (lease_conflict_result env principal event w)
  unfolding lease_conflict_result audit_record
  lease_conflict_result-Backed key w = tt

  stored_answer-Backed :
      (status : DedupStatus) (key : String) (r : DedupRecord) (w : World A)
      → status ≡ r.status
      → get key w.records ≡ some r
      → settled (some r) ≡ true
      → Backed key (stored_answer env principal event status r w)
  unfolding stored_answer audit_record duplicate_result pending_result terminal_result
  stored_answer-Backed DedupStatus.completed key r w e h t = (r, h, (sym e, refl))
  stored_answer-Backed DedupStatus.pending_approval key r w e h t = rw h t
  stored_answer-Backed DedupStatus.failed key r w e h t = (r, h, (inr (sym e), refl))
  stored_answer-Backed DedupStatus.dead_lettered key r w e h t = (r, h, (inl (sym e), refl))
  stored_answer-Backed DedupStatus.in_progress key r w e h t = absurd (ground arith)

  pub stored_result-Backed :
      (key : String) (r : DedupRecord) (w : World A)
      → get key w.records ≡ some r
      → settled (some r) ≡ true
      → Backed key (stored_result env principal event r w)
  unfolding stored_result
  stored_result-Backed key r w h t = stored_answer-Backed r.status key r w refl h t

abbrev pub StepBacked : {A : Type 0} → String → Result Step × World A → Type 0
StepBacked key (ok (leave j), w) = Supports key j.disposition j.outcome w.records
StepBacked key (ok _, w) = Unit {0}
StepBacked key (err e, w) = Unit {0}

abbrev pub VerdictBacked : {A : Type 0} → String → Result Verdict × World A → Type 0
VerdictBacked key (ok (answered j), w) = Supports key j.disposition j.outcome w.records
VerdictBacked key (ok _, w) = Unit {0}
VerdictBacked key (err e, w) = Unit {0}

module _ {A : Type 0} (env : Environment A) (job : Job) where
  -- A record is ended by the claim of the job, and holds what it was ended with.
  pub end_record-Holds :
      (status : DedupStatus) (outcome : Option AgentOutcome) (execution_id : String) (w : World A)
      → (end_record env job status outcome execution_id w).0 ≡ ok true
      → Holds job.key
          (λ r. (r.status ≡ status) × (r.outcome ≡ outcome))
          (end_record env job status outcome execution_id w).1.records
  unfolding end_record unless_conflict read_clock on_records
  end_record-Holds status outcome execution_id w h =
      let s = (yield_turn env (read_clock env w).1).records in
      let (existing, _, _, _, _, held) =
        mark_terminal_commits (env.clock w.ticks) job.key status outcome execution_id
          job.lease_owner job.lease_version s (ground arith) in
      (
        ended_record (env.clock w.ticks) job.key status outcome execution_id job.lease_owner
            job.lease_version existing,
        held,
        (refl, refl),
      )

  succeeded-Backed :
      (outcome : AgentOutcome) (execution_id : String) (attempt : ℕ) (ended : Result Bool)
      (w : World A)
      → (ended ≡ ok true
          → Holds job.key
              (λ r. (r.status ≡ DedupStatus.completed) × (r.outcome ≡ some outcome))
              w.records)
      → StepBacked job.key (after ended (succeeded env job outcome execution_id attempt) w)
  unfolding succeeded lease_conflict_result audit_record read_clock
  succeeded-Backed outcome execution_id attempt (ok true) w h = h refl
  succeeded-Backed outcome execution_id attempt (ok false) w h = tt
  succeeded-Backed outcome execution_id attempt (err e) w h = tt

  succeed-Backed :
      (outcome : AgentOutcome) (execution_id : String) (attempt : ℕ) (w : World A)
      → StepBacked job.key (succeed env job outcome execution_id attempt w)
  unfolding succeed note audit_record
  succeed-Backed outcome execution_id attempt w =
      succeeded-Backed outcome execution_id attempt _ _
        (end_record-Holds DedupStatus.completed (some outcome) execution_id _)

  retry_or_stop-Backed :
      (outcome : Option AgentOutcome) (category : FailureCategory) (execution_id : String)
      (attempt : ℕ) (w : World A)
      → StepBacked job.key (retry_or_stop env job outcome category execution_id attempt w)
  unfolding retry_or_stop note audit_record
  retry_or_stop-Backed outcome category execution_id attempt w =
      elim (Bool-cases (is_retryable category && ltb attempt env.max_attempts)) [
        | inl e ↦ rw e tt
        | inr e ↦ rw e tt
      ]

  settle-Backed :
      (ended : HandlerEnd) (execution_id : String) (attempt : ℕ) (w : World A)
      → StepBacked job.key (settle env job ended execution_id attempt w)
  unfolding settle note audit_record
  settle-Backed (returned outcome) execution_id attempt w = elim (Bool-cases (is_success outcome)) [
    | inl e ↦ rw e (succeed-Backed outcome execution_id attempt w)
    | inr e ↦
        rw e (retry_or_stop-Backed (some outcome) (classify_outcome outcome) execution_id attempt w)
  ]
  settle-Backed (raised retryable code) execution_id attempt w =
      retry_or_stop-Backed none (classify_exception retryable code) execution_id attempt _
  settle-Backed interrupted execution_id attempt w = tt

  attempt_once-Backed :
      (execution_id : String) (attempt : ℕ) (w : World A)
      → StepBacked job.key (attempt_once env job execution_id attempt w)
  unfolding attempt_once note audit_record call_handler
  attempt_once-Backed execution_id attempt w = settle-Backed _ execution_id attempt _

  attempt_if-Backed :
      (claimed : Result Bool) (execution_id : String) (attempt : ℕ) (w : World A)
      → StepBacked job.key (after claimed (λ c. attempt_if env job c execution_id attempt) w)
  unfolding attempt_if lease_conflict_result audit_record
  attempt_if-Backed (ok true) execution_id attempt w = attempt_once-Backed execution_id attempt w
  attempt_if-Backed (ok false) execution_id attempt w = tt
  attempt_if-Backed (err e) execution_id attempt w = tt

  round-Backed : (attempt : ℕ) (w : World A) → StepBacked job.key (round env job attempt w)
  unfolding round new_id
  round-Backed attempt w = elim (Bool-cases (attempt == 1)) [
    | inl e ↦ rw e (attempt_once-Backed job.first_execution_id attempt w)
    | inr e ↦ rw e (attempt_if-Backed _ _ attempt _)
  ]

  pub attempt_loop-Backed :
      (rounds : ℕ) (last : Ended) (w : World A)
      → VerdictBacked job.key (attempt_loop env job rounds last w)
  unfolding attempt_loop
  attempt_loop-Backed zero last w = tt
  attempt_loop-Backed (suc rounds) last w =
      next (attempt_loop-Backed rounds (record last { attempts = last.attempts + 1 })) _ _
        (round-Backed (last.attempts + 1) w)
    where
      next :
          ((w' : World A)
            → VerdictBacked job.key
                (attempt_loop env job rounds (record last { attempts = last.attempts + 1 }) w'))
          → (step : Result Step) (w' : World A) → StepBacked job.key (step, w')
          → VerdictBacked job.key (
              after step
                (λ s. elim s [
                  | again ↦
                      attempt_loop env job rounds (record last { attempts = last.attempts + 1 })
                  | stop ended ↦ pure (unresolved ended)
                  | leave r ↦ pure (answered r)
                ])
                w')
      next rest (ok again) w' h = rest w'
      next rest (ok (stop ended)) w' h = tt
      next rest (ok (leave j)) w' h = h
      next rest (err e) w' h = tt
