-- ===== src/Background/Runner/Settlement.antt =====
-- `run` as a whole: what its disposition says is what the deduplication store holds.
use enterprise_agent_harness.Prelude.{
  ℕ, String, ◌≡◌, refl, inl, inr, Bool, true, false, Option, none, some, arith, Bool-cases,
  string_eq,
}
use enterprise_agent_harness.Dict.{get, get-put_self}
use enterprise_agent_harness.Method.{Method, Result, ok, err, after}
use enterprise_agent_harness.Contracts.{AgentOutcome, PrincipalContext}
use enterprise_agent_harness.Background.Leases.{Lease, LeaseStore}
use enterprise_agent_harness.Background.Deduplication.{
  DedupStatus, DedupRecord, DedupStore, settled, mark_pending_approval,
}
use enterprise_agent_harness.Background.Deduplication.Terminal.{AllMarks}
use enterprise_agent_harness.Background.Events.{
  EventDisposition, FailureCategory, EventEnvelope, dedup_key,
}
use enterprise_agent_harness.Background.Runner.World.{
  Environment, World, JobResult, new_id, read_clock, yield_turn, on_leases, on_records,
  audit_record, record_dead_letter, unless_conflict,
}
use enterprise_agent_harness.Background.Runner.Results.{lease_conflict_result, final_disposition}
use enterprise_agent_harness.Background.Runner.Attempts.{
  Ended, Verdict, unresolved, answered, Job, note,
}
use enterprise_agent_harness.Background.Runner.Handle.{
  finally, parked, park, park_or_conflict, buried, bury, conclude_as, conclude, answer, work,
  answer_conflict, proceed, handle, hold, contend, enter, dispatch, run,
}
use enterprise_agent_harness.Background.Runner.Backed.{
  Holds, Supports, Backed, VerdictBacked, perform_all-Supports, lease_conflict_result-Backed,
  stored_result-Backed, end_record-Holds, attempt_loop-Backed,
}

mark_pending_settles :
    (now : ℕ) (key execution_id owner : String) (version : ℕ) (outcome : AgentOutcome)
    (s : DedupStore)
    → (mark_pending_approval now key execution_id owner version outcome s).0 ≡ ok tt
    → settled (get key (mark_pending_approval now key execution_id owner version outcome s).1)
      ≡ true
unfolding mark_pending_approval
mark_pending_settles now key execution_id owner version outcome s h = grind (arith, get-put_self)

module _ {A : Type 0} (env : Environment A) (job : Job) where
  parked-Backed :
      (last : Ended) (done : Result Bool) (w : World A)
      → (done ≡ ok true → settled (get job.key w.records) ≡ true)
      → Backed job.key (after done (parked env job last) w)
  unfolding parked lease_conflict_result audit_record read_clock
  parked-Backed last (ok true) w h = h refl
  parked-Backed last (ok false) w h = tt
  parked-Backed last (err e) w h = tt

  park-Backed :
      (last : Ended) (outcome : AgentOutcome) (execution_id : String) (w : World A)
      → Backed job.key (park env job last outcome execution_id w)
  unfolding park unless_conflict on_records read_clock
  park-Backed last outcome execution_id w = parked-Backed last _ _ (λ h.
      mark_pending_settles (env.clock w.ticks) job.key execution_id job.lease_owner
        job.lease_version outcome _ (ground arith))

  park_or_conflict-Backed :
      (last : Ended) (outcome : Option AgentOutcome) (execution_id : Option String) (w : World A)
      → Backed job.key (park_or_conflict env job last outcome execution_id w)
  unfolding park_or_conflict
  park_or_conflict-Backed last (some outcome) (some execution_id) w =
      park-Backed last outcome execution_id w
  park_or_conflict-Backed last (some outcome) none w =
      lease_conflict_result-Backed env job.principal job.event job.key w
  park_or_conflict-Backed last none execution_id w =
      lease_conflict_result-Backed env job.principal job.event job.key w

  abbrev HoldsLetter : Ended → DedupStore → Type 0
  HoldsLetter last s =
      Holds job.key (λ r. (r.status ≡ DedupStatus.dead_lettered) × (r.outcome ≡ last.last_outcome))
        s

  abbrev Fits : Ended → EventDisposition → Type 0
  Fits last disposition =
      (s : DedupStore) → HoldsLetter last s → Supports job.key disposition last.last_outcome s

  buried-Backed :
      (last : Ended) (disposition : EventDisposition) (ended : Result Bool) (w : World A)
      → Fits last disposition
      → (ended ≡ ok true → HoldsLetter last w.records)
      → Backed job.key (after ended (buried env job last disposition) w)
  unfolding buried lease_conflict_result audit_record note record_dead_letter read_clock
  buried-Backed last disposition (ok true) w fits h = fits w.records (h refl)
  buried-Backed last disposition (ok false) w fits h = tt
  buried-Backed last disposition (err e) w fits h = tt

  bury-Backed :
      (last : Ended) (disposition : EventDisposition) (w : World A)
      → Fits last disposition
      → Backed job.key (bury env job last disposition w)
  unfolding bury
  bury-Backed last disposition w fits =
      buried-Backed last disposition _ _ fits
        (end_record-Holds env job DedupStatus.dead_lettered last.last_outcome _ w)

  conclude_as-Backed :
      (category : FailureCategory) (last : Ended) (w : World A)
      → Backed job.key (conclude_as env job (final_disposition category) last w)
  unfolding conclude_as
  conclude_as-Backed FailureCategory.approval_required last w =
      park_or_conflict-Backed last last.last_outcome last.last_execution_id w
  conclude_as-Backed FailureCategory.cancelled last w =
      bury-Backed last EventDisposition.cancelled w (λ s (r, h, (e, o)). (r, h, (inl e, o)))
  conclude_as-Backed FailureCategory.budget_exhausted last w =
      bury-Backed last EventDisposition.failed w (λ s (r, h, (e, o)). (r, h, (inl e, o)))
  conclude_as-Backed _ last w =
      bury-Backed last EventDisposition.dead_lettered w (λ s (r, h, (e, o)). (r, h, (inl e, o)))

  answer-Backed :
      (verdict : Result Verdict) (w : World A)
      → VerdictBacked job.key (verdict, w)
      → Backed job.key (after verdict (answer env job) w)
  unfolding answer conclude
  answer-Backed (ok (unresolved last)) w h = conclude_as-Backed last.last_category last w
  answer-Backed (ok (answered j)) w h = h
  answer-Backed (err e) w h = tt

  work-Backed : (w : World A) → Backed job.key (work env job w)
  unfolding work
  work-Backed w = answer-Backed _ _ (attempt_loop-Backed env job env.max_attempts _ w)

module _ {A : Type 0} (env : Environment A) where
  answer_conflict-Backed :
      (principal : PrincipalContext) (event : EventEnvelope) (key : String)
      (stored : Option DedupRecord) (w : World A)
      → get key w.records ≡ stored
      → Backed key (answer_conflict env principal event stored w)
  unfolding answer_conflict
  answer_conflict-Backed principal event key none w h =
      lease_conflict_result-Backed env principal event key w
  answer_conflict-Backed principal event key (some r) w h = elim (Bool-cases (settled (some r))) [
    | inl e ↦ rw e (stored_result-Backed env principal event key r w h e)
    | inr e ↦ rw e (lease_conflict_result-Backed env principal event key w)
  ]

  with_input-Backed :
      (job : Job) (text : Result String) (w : World A)
      → Backed job.key (after text (λ t. work env (record job { input_text = t })) w)
  with_input-Backed job (ok text) w = work-Backed env (record job { input_text = text }) w
  with_input-Backed job (err e) w = tt

  proceed-Backed :
      (job : Job) (input_text : Option String) (claimed : Result Bool) (w : World A)
      → Backed job.key (after claimed (proceed env job input_text) w)
  unfolding proceed note audit_record on_records
  proceed-Backed job input_text (ok true) w = with_input-Backed job _ _
  proceed-Backed job input_text (ok false) w =
      answer_conflict-Backed job.principal job.event job.key _ _ refl
  proceed-Backed job input_text (err e) w = tt

  handle-Backed :
      (principal : PrincipalContext) (event : EventEnvelope) (input_text : Option String)
      (owner : String) (lease : Lease) (w : World A)
      → Backed (dedup_key env.sha256 event) (handle env principal event input_text owner lease w)
  unfolding handle new_id
  handle-Backed principal event input_text owner lease w = proceed-Backed _ input_text _ _

  module _ (marks : (n : ℕ) → AllMarks (env.schedule n).record_calls) where
    -- The turn of the other workers before the release, and the release.
    release-Backed :
        {B : Type 0} (m : Method LeaseStore B) (key : String) (result : Result JobResult)
        (w : World A)
        → Backed key (result, w)
        → Backed key (result, (on_leases env m w).1)
    unfolding on_leases yield_turn
    release-Backed m key (ok j) w h =
        perform_all-Supports j.disposition (env.schedule w.turns).record_calls key j.outcome
          w.records (marks w.turns) h
    release-Backed m key (err e) w h = tt

    hold-Backed :
        (principal : PrincipalContext) (event : EventEnvelope) (input_text : Option String)
        (owner : String) (won : Result (Option Lease)) (w : World A)
        → Backed
            (dedup_key env.sha256 event)
            (after won (hold env principal event input_text owner) w)
    unfolding hold finally
    hold-Backed principal event input_text owner (ok none) w =
        lease_conflict_result-Backed env principal event _ w
    hold-Backed principal event input_text owner (ok (some lease)) w =
        release-Backed _ (dedup_key env.sha256 event)
          (handle env principal event input_text owner lease w).0 _
          (handle-Backed principal event input_text owner lease w)
    hold-Backed principal event input_text owner (err e) w = tt

    dispatch-Backed :
        (principal : PrincipalContext) (event : EventEnvelope) (input_text : Option String)
        (existing : Option DedupRecord) (w : World A)
        → get (dedup_key env.sha256 event) w.records ≡ existing
        → Backed (dedup_key env.sha256 event) (dispatch env principal event input_text existing w)
    unfolding dispatch enter contend new_id read_clock
    dispatch-Backed principal event input_text none w h =
        hold-Backed principal event input_text _ _ _
    dispatch-Backed principal event input_text (some r) w h = elim (Bool-cases (settled (some r))) [
      | inl e ↦ rw e (stored_result-Backed env principal event _ r w h e)
      | inr e ↦ rw e (hold-Backed principal event input_text _ _ _)
    ]

    -- While the other workers make only `mark_*` calls on the deduplication store, in any order
    -- and between any two calls of this run: when `run` returns, a `completed` or `duplicate`
    -- result means that the event's record is completed with the outcome of the result; a
    -- `failed`, `cancelled` or `dead_lettered` one, that the record is dead-lettered or failed
    -- with that outcome; `pending_approval`, that the record is no longer in progress.
    pub run-Backed :
        (principal : PrincipalContext) (event : EventEnvelope) (input_text : Option String)
        (w : World A)
        → Backed (dedup_key env.sha256 event) (run env principal event input_text w)
    unfolding run on_records
    run-Backed principal event input_text w = dispatch-Backed principal event input_text _ _ refl
