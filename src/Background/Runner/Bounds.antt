-- ===== src/Background/Runner/Bounds.antt =====
-- How often one run may call the handler.
use enterprise_agent_harness.Prelude.{
  ℕ, zero, suc, ◌+◌, ◌≤◌, String, inl, inr, Bool, true, false, Option, none, some, arith,
  Bool-cases, nat_eq, ◌==◌,
}
use enterprise_agent_harness.Method.{Result, ok, err, after, pure}
use enterprise_agent_harness.Contracts.{PrincipalContext}
use enterprise_agent_harness.Background.Leases.{Lease}
use enterprise_agent_harness.Background.Deduplication.{DedupRecord, settled}
use enterprise_agent_harness.Background.Events.{EventEnvelope}
use enterprise_agent_harness.Background.Runner.World.{
  Environment, World, Attempt, new_id, read_clock, yield_turn, on_leases, on_records, audit_record,
  call_handler, unless_conflict, unless_leased,
}
use enterprise_agent_harness.Background.Runner.Results.{lease_conflict_result}
use enterprise_agent_harness.Background.Runner.Attempts.{
  Ended, Step, again, stop, leave, unresolved, answered, Job, claim, note, attempt_once, attempt_if,
  round, attempt_loop,
}
use enterprise_agent_harness.Background.Runner.Untouched.{
  app-settle, app-answer, app-stored_result, app-lease_conflict_result, app-answer_conflict,
  resolve_input-World,
}
use enterprise_agent_harness.Background.Runner.Handle.{
  finally, work, proceed, handle, hold, contend, enter, dispatch, run,
}

module _ {A : Type 0} (env : Environment A) (calls : A → ℕ)
    (at_most_one : (a : Attempt) (s : A) → calls (env.handler a s).1 ≤ calls s + 1) where
  module _ (job : Job) where
    calls-attempt_once :
        (execution_id : String) (attempt : ℕ) (w : World A)
        → calls (attempt_once env job execution_id attempt w).1.app ≤ calls w.app + 1
    unfolding attempt_once note audit_record call_handler
    calls-attempt_once execution_id attempt w =
        rw (app-settle env job _ execution_id attempt _) (at_most_one _ w.app)

    calls-attempt_if :
        (claimed : Result Bool) (execution_id : String) (attempt : ℕ) (w : World A)
        → calls (after claimed (λ c. attempt_if env job c execution_id attempt) w).1.app
          ≤ calls w.app + 1
    unfolding attempt_if lease_conflict_result audit_record
    calls-attempt_if (ok true) execution_id attempt w = calls-attempt_once execution_id attempt w
    calls-attempt_if (ok false) execution_id attempt w = omega arith
    calls-attempt_if (err e) execution_id attempt w = omega arith

    calls-round :
        (attempt : ℕ) (w : World A) → calls (round env job attempt w).1.app ≤ calls w.app + 1
    unfolding round new_id claim unless_conflict on_records yield_turn read_clock
    calls-round attempt w = elim (Bool-cases (attempt == 1)) [
      | inl e ↦ rw e (calls-attempt_once job.first_execution_id attempt w)
      | inr e ↦ rw e (calls-attempt_if _ _ attempt _)
    ]

    calls-attempt_loop :
        (rounds : ℕ) (last : Ended) (w : World A)
        → calls (attempt_loop env job rounds last w).1.app ≤ calls w.app + rounds
    unfolding attempt_loop
    calls-attempt_loop zero last w = omega arith
    calls-attempt_loop (suc rounds) last w =
        next (calls-attempt_loop rounds (record last { attempts = last.attempts + 1 })) _ _
          (calls-round (last.attempts + 1) w)
      where
        next :
            ((w' : World A)
              → calls
                  (attempt_loop env job rounds
                    (record last { attempts = last.attempts + 1 })
                    w').1.app
                ≤ calls w'.app + rounds)
            → (step : Result Step) (w' : World A) → calls w'.app ≤ calls w.app + 1
            → calls
                (after step
                  (λ s. elim s [
                    | again ↦
                        attempt_loop env job rounds (record last { attempts = last.attempts + 1 })
                    | stop ended ↦ pure (unresolved ended)
                    | leave r ↦ pure (answered r)
                  ])
                  w').1.app
              ≤ calls w.app + suc rounds
        next rest (ok again) w' h = omega (arith, rest w')
        next rest (ok (stop ended)) w' h = omega arith
        next rest (ok (leave j)) w' h = omega arith
        next rest (err e) w' h = omega arith

    calls-work : (w : World A) → calls (work env job w).1.app ≤ calls w.app + env.max_attempts
    unfolding work
    calls-work w = rw (app-answer env job _ _) (calls-attempt_loop env.max_attempts _ w)

  calls-with_input :
      (job : Job) (text : Result String) (w : World A)
      → calls (after text (λ t. work env (record job { input_text = t })) w).1.app
        ≤ calls w.app + env.max_attempts
  calls-with_input job (ok text) w = calls-work (record job { input_text = text }) w
  calls-with_input job (err e) w = omega arith

  calls-proceed :
      (job : Job) (input_text : Option String) (claimed : Result Bool) (w : World A)
      → calls (after claimed (proceed env job input_text) w).1.app ≤ calls w.app + env.max_attempts
  unfolding proceed note audit_record on_records yield_turn
  calls-proceed job input_text (ok true) w =
      rw (resolve_input-World env job.event input_text) (calls-with_input job _ _)
  calls-proceed job input_text (ok false) w =
      rw (app-answer_conflict env job.principal job.event) (omega arith)
  calls-proceed job input_text (err e) w = omega arith

  calls-hold :
      (principal : PrincipalContext) (event : EventEnvelope) (input_text : Option String)
      (owner : String) (won : Result (Option Lease)) (w : World A)
      → calls (after won (hold env principal event input_text owner) w).1.app
        ≤ calls w.app + env.max_attempts
  unfolding hold finally handle claim unless_conflict on_leases on_records yield_turn read_clock
      new_id
  calls-hold principal event input_text owner (ok none) w =
      rw (app-lease_conflict_result env principal event) (omega arith)
  calls-hold principal event input_text owner (ok (some lease)) w = calls-proceed _ input_text _ _
  calls-hold principal event input_text owner (err e) w = omega arith

  calls-dispatch :
      (principal : PrincipalContext) (event : EventEnvelope) (input_text : Option String)
      (existing : Option DedupRecord) (w : World A)
      → calls (dispatch env principal event input_text existing w).1.app
        ≤ calls w.app + env.max_attempts
  unfolding dispatch enter contend unless_leased on_leases yield_turn new_id read_clock
  calls-dispatch principal event input_text none w = calls-hold principal event input_text _ _ _
  calls-dispatch principal event input_text (some r) w = elim (Bool-cases (settled (some r))) [
    | inl e ↦ rw e (rw (app-stored_result env principal event r) (omega arith))
    | inr e ↦ rw e (calls-hold principal event input_text _ _ _)
  ]

  -- If one call of the handler raises a count of the application's by at most one, `run` raises
  -- it by at most `max_attempts`, whatever the handler answers or raises, and whatever the other
  -- workers do.
  pub calls-run :
      (principal : PrincipalContext) (event : EventEnvelope) (input_text : Option String)
      (w : World A)
      → calls (run env principal event input_text w).1.app ≤ calls w.app + env.max_attempts
  unfolding run on_records yield_turn
  calls-run principal event input_text w = calls-dispatch principal event input_text _ _
