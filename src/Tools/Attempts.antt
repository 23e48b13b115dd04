-- ===== src/Tools/Attempts.antt =====
-- How often `ToolRegistry.invoke` tries, and that its loop is always left from inside.
use enterprise_agent_harness.Prelude.{
  String, ◌&&◌, ℕ, zero, suc, ◌+◌, ◌≤◌, ◌<◌, ◌≡◌, refl, inl, inr, false, Option, none, some, arith,
  is_some, Bool-cases, if_case, if◌then◌else◌, not, ◌==◌, string_eq,
}
use enterprise_agent_harness.Method.{Result, ok, Error}
use enterprise_agent_harness.Contracts.{ToolResult, ToolResultStatus}
use enterprise_agent_harness.Tools.Definitions.{ToolDefinition}
use enterprise_agent_harness.Tools.Registry.{IdempotencyEntry, find}
use enterprise_agent_harness.Tools.Invocation.{run_attempt, settle, record_execution}
use enterprise_agent_harness.Tools.Retry.{
  Caller, World, Action, Step, again, leave, max_attempts, retry_allowed,
}
use enterprise_agent_harness.Tools.Execution.{
  Request, refuse, has_blank_key, continue_or_end, invoke_loop, invoke_locked, invoke_cached,
  invoke_tool, invoke, action_of, entry_at, cache_key,
}
use enterprise_agent_harness.Tools.Steps.{settle-GoesOn, settle-Keeps}

pub continue_or_end_case :
    {A : Type 0} (P : Result ToolResult × World A → Type 0) (s : Step)
    (next : Error → World A → Result ToolResult × World A) (w : World A)
    → ((e : Error) → s ≡ again e → P (next e w))
    → ((end : Result ToolResult) → s ≡ leave end → P (end, w))
    → P (continue_or_end s next w)
continue_or_end_case P (again e) next w goes ends = goes e refl
continue_or_end_case P (leave end) next w goes ends = ends end refl

agree :
    {A : Type 0} (s : Step) (next after : Error → World A → Result ToolResult × World A)
    (w : World A)
    → ((e : Error) → s ≡ again e → next e w ≡ after e w)
    → continue_or_end s next w ≡ continue_or_end s after w
agree (again e) next after w same = same e refl
agree (leave end) next after w same = refl

module _ {Args A : Type 0} (caller : Caller Args A) where
  -- A round is one attempt.
  pub round-runs :
      (action : Action Args) (attempt : ℕ) (w : World A)
      → (settle caller action attempt
          (run_attempt caller action w).0
          (run_attempt caller action w).1).1.runs
        ≡ w.runs + 1
  unfolding run_attempt
  round-runs action attempt w =
      (settle-Keeps caller action attempt (run_attempt caller action w).0
        (run_attempt caller action w).1).1

  loop-runs :
      (action : Action Args) (rounds attempts : ℕ) (last : Option Error) (w : World A)
      → (invoke_loop caller action rounds attempts last w).1.runs ≤ w.runs + rounds
  unfolding invoke_loop
  loop-runs action zero attempts last w = omega arith
  loop-runs action (suc rounds) attempts last w =
      let attempt = run_attempt caller action w in
      let step = settle caller action (attempts + 1) attempt.0 attempt.1 in
      let counted = round-runs action (attempts + 1) w in
      continue_or_end_case (λ x. x.1.runs ≤ w.runs + suc rounds) step.0 _ step.1
        (λ e h. let rest = loop-runs action rounds (attempts + 1) (some e) step.1 in omega arith)
        (λ end h. omega arith)

  -- A call that may not be repeated has one round.
  loop-runs_once :
      (action : Action Args) (rounds attempts : ℕ) (last : Option Error) (w : World A)
      → retry_allowed action ≡ false
      → (invoke_loop caller action rounds attempts last w).1.runs ≤ w.runs + 1
  unfolding invoke_loop
  loop-runs_once action zero attempts last w single = omega arith
  loop-runs_once action (suc rounds) attempts last w single =
      let attempt = run_attempt caller action w in
      let step = settle caller action (attempts + 1) attempt.0 attempt.1 in
      let counted = round-runs action (attempts + 1) w in
      continue_or_end_case (λ x. x.1.runs ≤ w.runs + 1) step.0 _ step.1
        (λ e h.
          let goes = settle-GoesOn caller action (attempts + 1) attempt.0 attempt.1 h in
          absurd (cc))
        (λ end h. omega arith)

  -- Two counts of rounds that reach the last attempt give one end.
  loop_enough :
      (action : Action Args) (a b attempts : ℕ) (last : Option Error) (w : World A)
      → attempts < max_attempts action.tool
      → max_attempts action.tool ≤ a + attempts
      → max_attempts action.tool ≤ b + attempts
      → invoke_loop caller action a attempts last w ≡ invoke_loop caller action b attempts last w
  unfolding invoke_loop
  loop_enough action zero b attempts last w more enough_a enough_b = absurd (omega arith)
  loop_enough action (suc a) zero attempts last w more enough_a enough_b = absurd (omega arith)
  loop_enough action (suc a) (suc b) attempts last w more enough_a enough_b =
      let attempt = run_attempt caller action w in
      let step = settle caller action (attempts + 1) attempt.0 attempt.1 in
      agree step.0 _ _ step.1 (λ e h.
        let goes = settle-GoesOn caller action (attempts + 1) attempt.0 attempt.1 h in
        loop_enough action a b (attempts + 1) (some e) step.1 goes.0 (omega arith) (omega arith))

  -- However many rounds beyond `max_attempts` the loop were given, it would end as it does: it is
  -- always left from inside, never by running out of rounds.
  pub invoke_locked_ends :
      (action : Action Args) (extra : ℕ) (w : World A)
      → 0 < max_attempts action.tool
      → invoke_loop caller action (max_attempts action.tool + extra) 0 none w
        ≡ invoke_locked caller action w
  unfolding invoke_locked
  invoke_locked_ends action extra w some_attempt =
      loop_enough action (max_attempts action.tool + extra) (max_attempts action.tool) 0 none w
        some_attempt (omega arith) (omega arith)

  -- The attempts that a call may make.
  abbrev pub allowance : Action Args → ℕ
  allowance action = if retry_allowed action then max_attempts action.tool else 1

  locked-runs :
      (action : Action Args) (w : World A)
      → (invoke_locked caller action w).1.runs ≤ w.runs + allowance action
  unfolding invoke_locked
  locked-runs action w = elim (Bool-cases (retry_allowed action)) [
    | inl h ↦ rw h (loop-runs action (max_attempts action.tool) 0 none w)
    | inr h ↦ rw h (loop-runs_once action (max_attempts action.tool) 0 none w h)
  ]

  cached-runs :
      (action : Action Args) (entry : Option IdempotencyEntry) (w : World A)
      → (invoke_cached caller action entry w).1.runs ≤ w.runs + allowance action
  unfolding invoke_cached record_execution
  cached-runs action none w = locked-runs action w
  cached-runs action (some cached) w =
      if_case (λ (x : Result ToolResult × World A). x.1.runs ≤ w.runs + allowance action)
        (not (cached.argument_digest == action.argument_digest)) (omega arith) (omega arith)

  -- How `invoke` goes with a tool that is found.
  pub invoke_tool_case :
      (P : Result ToolResult × World A → Type 0) (request : Request Args) (tool : ToolDefinition)
      (w : World A)
      → ((status : ToolResultStatus) (code : String) → P (refuse caller request tool status code w))
      → P (
          invoke_cached caller
            (action_of caller request tool)
            (entry_at caller
              (cache_key tool request.context request.idempotency_key)
              w.registry.idempotency)
            w)
      → P (invoke_tool caller request tool w)
  unfolding invoke_tool
  invoke_tool_case P request tool w refused cached =
      if_case P (not (caller.application.accepts tool request.arguments)) (refused _ _) (
        if_case P (has_blank_key request.idempotency_key) (refused _ _) (
          if_case P (tool.idempotency_required && not (is_some request.idempotency_key))
            (refused _ _) cached))

  -- A call makes at most as many attempts as its tool allows, and at most one if it may not be
  -- repeated: if the tool is not a read and the call has no idempotency key.
  pub runs-invoke :
      (request : Request Args) (tool : ToolDefinition) (w : World A)
      → find request.tool_id request.version false w.registry ≡ ok tool
      → (invoke caller request w).1.runs ≤ w.runs + allowance (action_of caller request tool)
  unfolding invoke record_execution
  runs-invoke request tool w found = rw found (
      invoke_tool_case (λ x. x.1.runs ≤ w.runs + allowance (action_of caller request tool)) request
        tool w (λ status code. omega arith) (cached-runs (action_of caller request tool) _ w))
