-- ===== src/Background/Runner/Duplicates.antt =====
-- An event that has been settled is not handled again.
use mathlib.Core.Path.{subst}
use enterprise_agent_harness.Prelude.{
  ℕ, String, ◌≡◌, refl, ap, ◌∙◌, true, Option, none, some, arith, string_eq,
}
use enterprise_agent_harness.Dict.{get}
use enterprise_agent_harness.Method.{Result, ok}
use enterprise_agent_harness.Contracts.{PrincipalContext}
use enterprise_agent_harness.Background.Deduplication.{DedupStatus, DedupRecord, settled}
use enterprise_agent_harness.Background.Deduplication.Terminal.{AllMarks, perform_all_mark}
use enterprise_agent_harness.Background.Events.{EventDisposition, EventEnvelope, dedup_key}
use enterprise_agent_harness.Background.Runner.World.{
  Environment, World, JobResult, yield_turn, on_records, audit_record,
}
use enterprise_agent_harness.Background.Runner.Results.{
  stored_answer, stored_result, duplicate_result,
}
use enterprise_agent_harness.Background.Runner.Handle.{dispatch, run}
use enterprise_agent_harness.Background.Runner.Untouched.{app-stored_result}
use enterprise_agent_harness.Background.Runner.Backed.{perform_all-settled, Supports, Backed}
use enterprise_agent_harness.Background.Runner.Settlement.{run-Backed}

module _ {A : Type 0} (env : Environment A) (principal : PrincipalContext)
    (event : EventEnvelope) where
  app-dispatch :
      (input_text : Option String) (existing : Option DedupRecord) (w : World A)
      → settled existing ≡ true
      → (dispatch env principal event input_text existing w).1.app ≡ w.app
  unfolding dispatch
  app-dispatch input_text none w h = cc
  app-dispatch input_text (some r) w h = rw h (app-stored_result env principal event r w)

  -- A record that is completed is answered as a duplicate, with its own outcome.
  duplicate_answer :
      (status : DedupStatus) (r : DedupRecord) (w : World A)
      → status ≡ DedupStatus.completed
      → (j : JobResult) × ((stored_answer env principal event status r w).0 ≡ ok j)
        × (j.disposition ≡ EventDisposition.duplicate)
        × (j.outcome ≡ r.outcome)
  unfolding stored_answer duplicate_result audit_record
  duplicate_answer DedupStatus.completed r w e = (_, refl, refl, refl)
  duplicate_answer _ r w e = absurd (grind (arith, e))

  dispatch-settled :
      (input_text : Option String) (r : DedupRecord) (w : World A)
      → settled (some r) ≡ true
      → dispatch env principal event input_text (some r) w
        ≡ stored_answer env principal event r.status r w
  unfolding dispatch stored_result
  dispatch-settled input_text r w h = rw h refl

  dispatch_completed :
      (input_text : Option String) (existing : Option DedupRecord) {r : DedupRecord} (w : World A)
      → existing ≡ some r
      → r.status ≡ DedupStatus.completed
      → (j : JobResult) × ((dispatch env principal event input_text existing w).0 ≡ ok j)
        × (j.disposition ≡ EventDisposition.duplicate)
        × (j.outcome ≡ r.outcome)
  dispatch_completed input_text existing {r} w e c =
      let (j, done, d, o) = duplicate_answer r.status r w c in
      let same =
        ap (λ (x : Option DedupRecord). dispatch env principal event input_text x w) e
        ∙ dispatch-settled input_text r w (rw c refl) in
      (j, ap (λ (x : Result JobResult × World A). x.0) same ∙ done, d, o)

  module _ (marks : (n : ℕ) → AllMarks (env.schedule n).record_calls) where
    -- While other workers make only `mark_*` calls on the deduplication store: once the record of
    -- an event is no longer in progress, `run` does not call the handler for it.
    pub run-settled :
        (input_text : Option String) (w : World A)
        → settled (get (dedup_key env.sha256 event) w.records) ≡ true
        → (run env principal event input_text w).1.app ≡ w.app
    unfolding run on_records yield_turn
    run-settled input_text w h = app-dispatch input_text _ _ (
        perform_all-settled (env.schedule w.turns).record_calls (dedup_key env.sha256 event)
          w.records (marks w.turns) h)

    run_completed :
        (input_text : Option String) (w : World A) {r : DedupRecord}
        → get (dedup_key env.sha256 event) w.records ≡ some r
        → r.status ≡ DedupStatus.completed
        → (j : JobResult) × ((run env principal event input_text w).0 ≡ ok j)
          × (j.disposition ≡ EventDisposition.duplicate)
          × (j.outcome ≡ r.outcome)
    unfolding run on_records yield_turn
    run_completed input_text w {r} h c =
        dispatch_completed input_text _ _
          (perform_all_mark (env.schedule w.turns).record_calls (dedup_key env.sha256 event) r
            w.records (marks w.turns) h (rw c refl))
          c

    -- While other workers make only `mark_*` calls on the deduplication store: when a run of an
    -- event has answered `completed`, the next run of the event answers `duplicate` with the same
    -- outcome, and does not call the handler.
    pub run_twice :
        (input_text again_text : Option String) (w : World A) {j : JobResult}
        → (run env principal event input_text w).0 ≡ ok j
        → j.disposition ≡ EventDisposition.completed
        → let w' = (run env principal event input_text w).1 in
          ((j' : JobResult) × ((run env principal event again_text w').0 ≡ ok j')
            × (j'.disposition ≡ EventDisposition.duplicate)
            × (j'.outcome ≡ j.outcome))
          × ((run env principal event again_text w').1.app ≡ w'.app)
    run_twice input_text again_text w {j} done completed =
        let key = dedup_key env.sha256 event in
        let w' = (run env principal event input_text w).1 in
        let backed : Supports key j.disposition j.outcome w'.records =
          subst (λ (x : Result JobResult). Backed key (x, w')) done
            (run-Backed env marks principal event input_text w) in
        let (r, held, (status, outcome)) : Supports key EventDisposition.completed j.outcome
            w'.records =
          subst (λ (d : EventDisposition). Supports key d j.outcome w'.records) completed backed in
        let (j', done', d, o) = run_completed again_text w' held status in
        ((j', done', d, o ∙ outcome), run-settled again_text w' (rw held (rw status refl)))
