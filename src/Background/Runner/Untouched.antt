-- ===== src/Background/Runner/Untouched.antt =====
-- The parts of a run that leave the application alone: all but the call of the handler.
use enterprise_agent_harness.Prelude.{
  ℕ, String, ◌≡◌, refl, inl, inr, Bool, true, false, Option, none, some, arith, Bool-cases, nat_eq,
  ◌&&◌, ltb,
}
use enterprise_agent_harness.Method.{Result, ok, err, after}
use enterprise_agent_harness.Contracts.{AgentOutcome, PrincipalContext}
use enterprise_agent_harness.Background.Deduplication.{DedupStatus, DedupRecord, settled}
use enterprise_agent_harness.Background.Events.{EventDisposition, FailureCategory, EventEnvelope}
use enterprise_agent_harness.Background.Runner.World.{
  Environment, World, HandlerEnd, returned, raised, interrupted, read_clock, yield_turn, on_records,
  audit_record, record_dead_letter, unless_conflict,
}
use enterprise_agent_harness.Background.Runner.Results.{
  is_success, classify_exception, classify_outcome, final_disposition, stored_answer, stored_result,
  duplicate_result, pending_result, terminal_result, lease_conflict_result,
}
use enterprise_agent_harness.Background.Runner.Attempts.{
  is_retryable, Ended, Verdict, unresolved, answered, Job, end_record, note, succeeded, succeed,
  retry_or_stop, settle,
}
use enterprise_agent_harness.Background.Runner.Handle.{
  parked, park, park_or_conflict, buried, bury, conclude_as, conclude, answer, resolve_input,
  answer_conflict,
}

module _ {A : Type 0} (env : Environment A) where
  app-stored_answer :
      (principal : PrincipalContext) (event : EventEnvelope) (status : DedupStatus)
      (r : DedupRecord) (w : World A)
      → (stored_answer env principal event status r w).1.app ≡ w.app
  unfolding stored_answer duplicate_result pending_result terminal_result audit_record
  app-stored_answer principal event DedupStatus.completed r w = refl
  app-stored_answer principal event DedupStatus.pending_approval r w = refl
  app-stored_answer principal event DedupStatus.failed r w = refl
  app-stored_answer principal event _ r w = refl

  -- Answering from a stored record leaves the application alone.
  pub app-stored_result :
      (principal : PrincipalContext) (event : EventEnvelope) (r : DedupRecord) (w : World A)
      → (stored_result env principal event r w).1.app ≡ w.app
  unfolding stored_result
  app-stored_result principal event r w = app-stored_answer principal event r.status r w

  pub app-lease_conflict_result :
      (principal : PrincipalContext) (event : EventEnvelope) (w : World A)
      → (lease_conflict_result env principal event w).1.app ≡ w.app
  unfolding lease_conflict_result audit_record
  app-lease_conflict_result principal event w = refl

module _ {A : Type 0} (env : Environment A) (job : Job) where
  app-succeeded :
      (outcome : AgentOutcome) (execution_id : String) (attempt : ℕ) (ended : Result Bool)
      (w : World A)
      → (after ended (succeeded env job outcome execution_id attempt) w).1.app ≡ w.app
  unfolding succeeded lease_conflict_result audit_record read_clock
  app-succeeded outcome execution_id attempt (ok true) w = refl
  app-succeeded outcome execution_id attempt (ok false) w = refl
  app-succeeded outcome execution_id attempt (err e) w = refl

  app-retry_or_stop :
      (outcome : Option AgentOutcome) (category : FailureCategory) (execution_id : String)
      (attempt : ℕ) (w : World A)
      → (retry_or_stop env job outcome category execution_id attempt w).1.app ≡ w.app
  unfolding retry_or_stop note audit_record
  app-retry_or_stop outcome category execution_id attempt w =
      elim (Bool-cases (is_retryable category && ltb attempt env.max_attempts)) [
        | inl e ↦ rw e refl
        | inr e ↦ rw e refl
      ]

  pub app-settle :
      (ended : HandlerEnd) (execution_id : String) (attempt : ℕ) (w : World A)
      → (settle env job ended execution_id attempt w).1.app ≡ w.app
  unfolding settle note audit_record succeed end_record unless_conflict on_records yield_turn
      read_clock
  app-settle (returned outcome) execution_id attempt w = elim (Bool-cases (is_success outcome)) [
    | inl e ↦ rw e (app-succeeded outcome execution_id attempt _ _)
    | inr e ↦
        rw e (app-retry_or_stop (some outcome) (classify_outcome outcome) execution_id attempt w)
  ]
  app-settle (raised retryable code) execution_id attempt w =
      app-retry_or_stop none (classify_exception retryable code) execution_id attempt _
  app-settle interrupted execution_id attempt w = refl

  app-buried :
      (last : Ended) (disposition : EventDisposition) (ended : Result Bool) (w : World A)
      → (after ended (buried env job last disposition) w).1.app ≡ w.app
  unfolding buried lease_conflict_result audit_record note record_dead_letter read_clock
  app-buried last disposition (ok true) w = refl
  app-buried last disposition (ok false) w = refl
  app-buried last disposition (err e) w = refl

  app-parked :
      (last : Ended) (done : Result Bool) (w : World A)
      → (after done (parked env job last) w).1.app ≡ w.app
  unfolding parked lease_conflict_result audit_record read_clock
  app-parked last (ok true) w = refl
  app-parked last (ok false) w = refl
  app-parked last (err e) w = refl

  app-park_or_conflict :
      (last : Ended) (outcome : Option AgentOutcome) (execution_id : Option String) (w : World A)
      → (park_or_conflict env job last outcome execution_id w).1.app ≡ w.app
  unfolding park_or_conflict park unless_conflict on_records yield_turn read_clock
  app-park_or_conflict last (some outcome) (some execution_id) w = app-parked last _ _
  app-park_or_conflict last (some outcome) none w =
      app-lease_conflict_result env job.principal job.event w
  app-park_or_conflict last none execution_id w =
      app-lease_conflict_result env job.principal job.event w

  app-conclude_as :
      (disposition : EventDisposition) (last : Ended) (w : World A)
      → (conclude_as env job disposition last w).1.app ≡ w.app
  unfolding conclude_as bury end_record unless_conflict on_records yield_turn read_clock
  app-conclude_as EventDisposition.pending_approval last w =
      app-park_or_conflict last last.last_outcome last.last_execution_id w
  app-conclude_as _ last w = app-buried last _ _ _

  pub app-answer :
      (verdict : Result Verdict) (w : World A) → (after verdict (answer env job) w).1.app ≡ w.app
  unfolding answer conclude
  app-answer (ok (unresolved last)) w =
      app-conclude_as (final_disposition last.last_category) last w
  app-answer (ok (answered j)) w = refl
  app-answer (err e) w = refl

module _ {A : Type 0} (env : Environment A) where
  pub app-answer_conflict :
      (principal : PrincipalContext) (event : EventEnvelope) (stored : Option DedupRecord)
      (w : World A)
      → (answer_conflict env principal event stored w).1.app ≡ w.app
  unfolding answer_conflict
  app-answer_conflict principal event none w = app-lease_conflict_result env principal event w
  app-answer_conflict principal event (some r) w = elim (Bool-cases (settled (some r))) [
    | inl e ↦ rw e (app-stored_result env principal event r w)
    | inr e ↦ rw e (app-lease_conflict_result env principal event w)
  ]

  pub resolve_input-World :
      (event : EventEnvelope) (input_text : Option String) (w : World A)
      → (resolve_input env event input_text w).1 ≡ w
  unfolding resolve_input
  resolve_input-World event (some text) w = refl
  resolve_input-World event none w = ground arith
