-- ===== src/Tools/Retries.antt =====
-- The tool registry under an execution's control: `ExecutionControl.admit_retry` is the retry
-- admission of the calls of a run (runtime/execution.py passes it), on a state that has the control
-- beside whatever else the application has.
use enterprise_agent_harness.Prelude.{
  ℕ, zero, suc, ◌+◌, ◌≤◌, ◌≡◌, ◌≢◌, refl, ap, ◌∙◌, Bool, true, false, ◌&&◌, not, Option, none, some,
  arith, if_case, ◌==◌, string_eq,
}
use enterprise_agent_harness.Method.{Result, ok, err, Error, tool_invocation}
use enterprise_agent_harness.Contracts.{ExecutionContext, ToolResult, ToolResultStatus}
use enterprise_agent_harness.Runtime.Control.{Costs, Surroundings, Control, admit_retry}
use enterprise_agent_harness.Runtime.Budgets.{admit_retry-Spends}
use enterprise_agent_harness.Runtime.Spending.{Spends, Spends-from}
use enterprise_agent_harness.Tools.Definitions.{ToolDefinition}
use enterprise_agent_harness.Tools.Invoke.{Outcome, result, failure, invoke as invoke_handler}
use enterprise_agent_harness.Tools.Registry.{IdempotencyEntry, find}
use enterprise_agent_harness.Tools.Invocation.{
  run_attempt, settle, admitted, after_admission, on_failure, on_result, conclude, record_execution,
  sleep_then, give_up, give_result, with_metadata,
}
use enterprise_agent_harness.Tools.Retry.{
  Caller, World, Action, AttemptEnd, ended, aborted, Step, again, reason_code, should_retry,
  should_retry_result, is_failed, has_run,
}
use enterprise_agent_harness.Tools.Execution.{
  Request, invoke_loop, invoke_locked, invoke_cached, invoke, action_of,
}
use enterprise_agent_harness.Tools.Attempts.{continue_or_end_case, invoke_tool_case, round-runs}

-- The admission that a run gives to the registry.
abbrev pub admission :
    {Cost B : Type 0}
    → Costs Cost
    → Surroundings
    → Control Cost × B
    → Result Bool × (Control Cost × B)
admission costs surroundings (c, b) =
    ((admit_retry costs surroundings c).0, ((admit_retry costs surroundings c).1, b))

module _ {Args A : Type 0} (caller : Caller Args A) (action : Action Args) where
  -- A round that goes on was admitted, and the application's state is the one after the admission.
  abbrev GoesAdmitted : World A → Step × World A → Type 0
  GoesAdmitted w x =
      (e : Error)
      → x.0 ≡ again e
      → ((admitted caller caller.retry_admission w).0 ≡ ok true)
        × (x.1.app ≡ (admitted caller caller.retry_admission w).1.app)

  after_admission_again :
      (answer : Result Bool) (retry refuse : World A → Step × World A) (w : World A) (e : Error)
      → ((v : World A) → (refuse v).0 ≢ again e)
      → (after_admission caller answer retry refuse w).0 ≡ again e
      → (answer ≡ ok true) × (after_admission caller answer retry refuse w ≡ retry w)
  after_admission_again (err f) retry refuse w e refuses h = absurd (cc)
  after_admission_again (ok true) retry refuse w e refuses h = (refl, refl)
  after_admission_again (ok false) retry refuse w e refuses h = absurd (refuses w h)

  settle-GoesAdmitted :
      (attempt : ℕ) (end : AttemptEnd) (w : World A)
      → GoesAdmitted w (settle caller action attempt end w)
  unfolding on_failure on_result conclude
  settle-GoesAdmitted attempt (aborted f) w = λ e h. absurd (cc)
  settle-GoesAdmitted attempt (ended (failure f)) w =
      if_case (GoesAdmitted w) (should_retry action f attempt)
        (λ e h.
          let (admits, same) =
            after_admission_again (admitted caller caller.retry_admission w).0
              (sleep_then caller (tool_invocation f.code))
              (give_up caller action ToolResultStatus.failed attempt f.code
                (tool_invocation f.code))
              (admitted caller caller.retry_admission w).1 e (λ v k. absurd (cc)) h in
          (admits, ap (λ (x : Step × World A). x.1.app) same))
        (λ e h. absurd (cc))
  settle-GoesAdmitted attempt (ended (result r)) w =
      if_case (GoesAdmitted w) (is_failed r.status && should_retry_result action r attempt)
        (λ e h.
          let (admits, same) =
            after_admission_again (admitted caller caller.retry_admission w).0
              (sleep_then caller (tool_invocation (reason_code r.error_code)))
              (give_result caller action attempt (with_metadata caller action.tool attempt r))
              (admitted caller caller.retry_admission w).1 e (λ v k. absurd (cc)) h in
          (admits, ap (λ (x : Step × World A). x.1.app) same))
        (λ e h. absurd (cc))

module _ {Cost Args B : Type 0} (costs : Costs Cost) (surroundings : Surroundings)
    (caller : Caller Args (Control Cost × B))
    (admits : caller.retry_admission ≡ some (admission costs surroundings))
    (apart : (tool : ToolDefinition) (context : ExecutionContext) (arguments : Args)
        (a : Control Cost × B)
      → (caller.application.call tool context arguments a).1.0 ≡ a.0)
    (apart_before : (n : ℕ) (a : Control Cost × B) → (caller.arrives_before n a).0 ≡ a.0)
    (apart_after : (n : ℕ) (a : Control Cost × B) → (caller.arrives_after n a).0 ≡ a.0) where
  -- An attempt leaves the control as it is.
  run_attempt-control :
      (action : Action Args) (w : World (Control Cost × B))
      → (run_attempt caller action w).1.app.0 ≡ w.app.0
  unfolding run_attempt invoke_handler
  run_attempt-control action w =
      let b = caller.arrives_before w.runs w.app in
      apart_after w.runs _
      ∙ (if_case (λ (a : Control Cost × B). a.0 ≡ b.0)
            (has_run (caller.timing w.runs) (caller.started w.runs))
            (if_case (λ (x : Outcome × (Control Cost × B)). x.1.0 ≡ b.0)
              (caller.application.accepts action.tool action.arguments)
              (apart action.tool action.context action.arguments b) refl)
            refl
          ∙ apart_before w.runs w.app)

  -- A round that goes on has spent a retry.
  spent :
      (left : ℕ) (rest : Option ℕ)
      → Spends 1 (some left) rest
      → (r : ℕ) × (rest ≡ some r) × (r + 1 ≤ left)
  spent left none s = absurd s
  spent left (some r) s = (r, refl, omega arith)

  admission-spent :
      (c : Control Cost) (left : ℕ)
      → c.remaining_retries ≡ some left
      → (admit_retry costs surroundings c).0 ≡ ok true
      → (r : ℕ) × ((admit_retry costs surroundings c).1.remaining_retries ≡ some r) × (r + 1 ≤ left)
  admission-spent c left h answered =
      spent left (admit_retry costs surroundings c).1.remaining_retries (
        Spends-from 1 c.remaining_retries (some left) _ h
          (rw answered at (admit_retry-Spends costs surroundings c)))

  callback-spent :
      (callback : Option (Control Cost × B → Result Bool × (Control Cost × B)))
      (w : World (Control Cost × B)) (left : ℕ)
      → callback ≡ some (admission costs surroundings)
      → w.app.0.remaining_retries ≡ some left
      → (admitted caller callback w).0 ≡ ok true
      → (r : ℕ) × ((admitted caller callback w).1.app.0.remaining_retries ≡ some r) × (r + 1 ≤ left)
  callback-spent none w left same h answered = absurd (cc)
  callback-spent (some f) w left same h answered =
      let at : f ≡ admission costs surroundings = cc in
      rw at (admission-spent w.app.0 left h (rw at at answered))

  loop-retries :
      (action : Action Args) (rounds attempts : ℕ) (last : Option Error)
      (w : World (Control Cost × B)) (left : ℕ)
      → w.app.0.remaining_retries ≡ some left
      → (invoke_loop caller action rounds attempts last w).1.runs ≤ w.runs + (left + 1)
  unfolding invoke_loop
  loop-retries action zero attempts last w left h = omega arith
  loop-retries action (suc rounds) attempts last w left h =
      let attempt = run_attempt caller action w in
      let step = settle caller action (attempts + 1) attempt.0 attempt.1 in
      let counted = round-runs caller action (attempts + 1) w in
      continue_or_end_case (λ x. x.1.runs ≤ w.runs + (left + 1)) step.0 _ step.1
        (λ e again_it_is.
          let (answered, after_it) =
            settle-GoesAdmitted caller action (attempts + 1) attempt.0 attempt.1 e again_it_is in
          let before : attempt.1.app.0.remaining_retries ≡ some left =
            ap (λ (c : Control Cost). c.remaining_retries) (run_attempt-control action w) ∙ h in
          let (r, now, fewer) =
            callback-spent caller.retry_admission attempt.1 left admits before answered in
          let then_left : step.1.app.0.remaining_retries ≡ some r =
            ap (λ (a : Control Cost × B). a.0.remaining_retries) after_it ∙ now in
          let rest = loop-retries action rounds (attempts + 1) (some e) step.1 r then_left in
          omega arith)
        (λ end h. omega arith)

  cached-retries :
      (action : Action Args) (entry : Option IdempotencyEntry) (w : World (Control Cost × B))
      (left : ℕ)
      → w.app.0.remaining_retries ≡ some left
      → (invoke_cached caller action entry w).1.runs ≤ w.runs + (left + 1)
  unfolding invoke_cached invoke_locked record_execution
  cached-retries action none w left h = loop-retries action _ 0 none w left h
  cached-retries action (some cached) w left h =
      if_case (λ (x : Result ToolResult × World (Control Cost × B)). x.1.runs ≤ w.runs + (left + 1))
        (not (cached.argument_digest == action.argument_digest)) (omega arith) (omega arith)

  -- Under a control with a retry budget, whose retries the registry asks it for and whose state the
  -- handlers leave alone, also those that were given up and go on running, a call makes at most one attempt more than there are retries left,
  -- whatever the tool allows.
  pub retries-invoke :
      (request : Request Args) (tool : ToolDefinition) (left : ℕ) (w : World (Control Cost × B))
      → find request.tool_id request.version false w.registry ≡ ok tool
      → w.app.0.remaining_retries ≡ some left
      → (invoke caller request w).1.runs ≤ w.runs + (left + 1)
  unfolding invoke record_execution
  retries-invoke request tool left w found h = rw found (
      invoke_tool_case caller (λ x. x.1.runs ≤ w.runs + (left + 1)) request tool w
        (λ status code. omega arith) (cached-retries (action_of caller request tool) _ w left h))
