-- ===== src/Runtime/Budgets.antt =====
-- What an execution's budgets are worth: over any sequence of calls, no more is granted than was
-- configured.
use enterprise_agent_harness.Prelude.{
  ℕ, ◌+◌, ◌-◌, ◌≡◌, refl, ap, ◌∙◌, inl, inr, Bool, true, Option, none, some, List, [], ◌∷◌, arith,
  ◌==◌, nat_eq, Bool-cases, if_case, if◌then◌else◌,
}
use enterprise_agent_harness.Method.{Result, ok, err, after_case}
use enterprise_agent_harness.Runtime.Control.{
  Costs, Surroundings, Control, Limits, new_control, check, check_deadline, is_over, is_over_cost,
  use_tokens, record_provider_usage, use_tool, record_tool_invocation, consume_retry, admit_retry,
  is_zero, is_negative,
}
use enterprise_agent_harness.Runtime.Spending.{
  Spends, Within, Spends-Within, Spends-none, Spends-from, Within-from,
}

module _ {Cost : Type 0} (costs : Costs Cost) (surroundings : Surroundings) where
  -- The calls that a run makes of its control.
  pub data Call : Type 0 where
    checking invoking retrying : Call
    using : ℕ → ℕ → Cost → Call

  abbrev pub perform : Call → Control Cost → Control Cost
  perform checking c = (check costs surroundings c).1
  perform invoking c = (record_tool_invocation costs surroundings c).1
  perform retrying c = (admit_retry costs surroundings c).1
  perform (using input_tokens output_tokens cost) c =
      (record_provider_usage costs surroundings input_tokens output_tokens cost c).1

  abbrev pub answers_ok : Result (Unit {0}) → ℕ
  answers_ok (ok u) = 1
  answers_ok (err e) = 0

  abbrev pub answers_true : Result Bool → ℕ
  answers_true (ok true) = 1
  answers_true _ = 0

  -- Whether the call is a tool invocation that is let through, or a retry that is admitted.
  abbrev pub tool_grants : Call → Control Cost → ℕ
  tool_grants invoking c = answers_ok (record_tool_invocation costs surroundings c).0
  tool_grants _ c = 0

  abbrev pub retry_grants : Call → Control Cost → ℕ
  retry_grants retrying c = answers_true (admit_retry costs surroundings c).0
  retry_grants _ c = 0

  abbrev pub total : (Call → Control Cost → ℕ) → List Call → Control Cost → ℕ
  total grants [] c = 0
  total grants (call ∷ calls) c = grants call c + total grants calls (perform call c)

  total-Within :
      (left : Control Cost → Option ℕ) (grants : Call → Control Cost → ℕ)
      → ((call : Call) (c : Control Cost) → Spends (grants call c) (left c) (left (perform call c)))
      → (calls : List Call) (c : Control Cost) → Within (left c) (total grants calls c)
  total-Within left grants spends [] c = nothing (left c)
    where
      nothing : (o : Option ℕ) → Within o 0
      nothing none = tt
      nothing (some most) = omega arith
  total-Within left grants spends (call ∷ calls) c =
      Spends-Within (left c) (left (perform call c)) (grants call c) _ (spends call c)
        (total-Within left grants spends calls (perform call c))

  -- What a call of one budget leaves of the others.
  abbrev Same : Control Cost → Control Cost → Type 0
  Same c d =
      (d.remaining_retries ≡ c.remaining_retries)
      × (d.max_tool_invocations ≡ c.max_tool_invocations)
      × (d.tool_invocations ≡ c.tool_invocations)

  check_deadline-Same :
      (deadline : Option ℕ) (c : Control Cost)
      → Same c (check_deadline costs surroundings deadline c).1
  check_deadline-Same none c = (refl, refl, refl)
  check_deadline-Same (some deadline) c = (refl, refl, refl)

  check-Same : (c : Control Cost) → Same c (check costs surroundings c).1
  unfolding check
  check-Same c =
      if_case (λ (x : Result (Unit {0}) × Control Cost). Same c x.1)
        (surroundings.cancelled c.signal_reads) (refl, refl, refl)
        (check_deadline-Same c.deadline (record c { signal_reads = c.signal_reads + 1 }))

  use_tokens-Same :
      (i o : ℕ) (cost : Cost) (c : Control Cost)
      → Same c (use_tokens costs surroundings i o cost c).1
  unfolding use_tokens
  use_tokens-Same i o cost c =
      if_case (λ (x : Result (Unit {0}) × Control Cost). Same c x.1)
        (is_over costs surroundings c.max_total_tokens (c.total_tokens + (i + o)))
        (refl, refl, refl)
        (if_case (λ (x : Result (Unit {0}) × Control Cost). Same c x.1)
          (is_over_cost costs surroundings c.max_cost (costs.add c.total_cost cost))
          (refl, refl, refl) (refl, refl, refl))

  usage-Same :
      (i o : ℕ) (cost : Cost) (c : Control Cost)
      → Same c (record_provider_usage costs surroundings i o cost c).1
  unfolding record_provider_usage
  usage-Same i o cost c =
      let checked = check costs surroundings c in
      let kept = check-Same c in
      after_case (λ x. Same c x.1) checked.0 _ checked.1 (λ e. kept)
        (λ u h. let used = use_tokens-Same i o cost checked.1 in (cc, cc, cc))

  -- Retries.
  consume-Spends :
      (remaining : Option ℕ) (c : Control Cost)
      → c.remaining_retries ≡ remaining
      → let x = consume_retry costs surroundings remaining c in
        Spends (answers_true x.0) remaining x.1.remaining_retries
  consume-Spends none c h = tt
  consume-Spends (some remaining) c h = elim (Bool-cases (remaining == 0)) [
    | inl e ↦ rw (e, h) (omega arith)
    | inr e ↦ rw e (ground (arith, e))
  ]

  pub admit_retry-Spends :
      (c : Control Cost)
      → let x = admit_retry costs surroundings c in
        Spends (answers_true x.0) c.remaining_retries x.1.remaining_retries
  unfolding admit_retry
  admit_retry-Spends c =
      let checked = check costs surroundings c in
      let kept = (check-Same c).0 in
      after_case (λ x. Spends (answers_true x.0) c.remaining_retries x.1.remaining_retries)
        checked.0 _ checked.1 (λ e. rw kept (Spends-none c.remaining_retries))
        (λ u h.
          Spends-from _ checked.1.remaining_retries c.remaining_retries _ kept
            (consume-Spends checked.1.remaining_retries checked.1 refl))

  use_tool-retries :
      (c : Control Cost) → (use_tool costs surroundings c).1.remaining_retries ≡ c.remaining_retries
  unfolding use_tool
  use_tool-retries c =
      if_case
        (λ (x : Result (Unit {0}) × Control Cost). x.1.remaining_retries ≡ c.remaining_retries)
        (is_over costs surroundings c.max_tool_invocations (c.tool_invocations + 1)) refl refl

  invocation-retries :
      (c : Control Cost)
      → (record_tool_invocation costs surroundings c).1.remaining_retries ≡ c.remaining_retries
  unfolding record_tool_invocation
  invocation-retries c =
      let checked = check costs surroundings c in
      let kept = (check-Same c).0 in
      after_case (λ x. x.1.remaining_retries ≡ c.remaining_retries) checked.0 _ checked.1
        (λ e. kept) (λ u h. use_tool-retries checked.1 ∙ kept)

  retry-Spends :
      (call : Call) (c : Control Cost)
      → Spends (retry_grants call c) c.remaining_retries (perform call c).remaining_retries
  retry-Spends checking c = rw ((check-Same c).0) (Spends-none c.remaining_retries)
  retry-Spends invoking c = rw (invocation-retries c) (Spends-none c.remaining_retries)
  retry-Spends retrying c = admit_retry-Spends c
  retry-Spends (using i o cost) c = rw ((usage-Same i o cost c).0) (Spends-none c.remaining_retries)

  -- Tool invocations.
  abbrev left_of : Option ℕ → ℕ → Option ℕ
  left_of none used = none
  left_of (some most) used = some (most - used)

  abbrev left_tools : Control Cost → Option ℕ
  left_tools c = left_of c.max_tool_invocations c.tool_invocations

  Same-left_tools : (c d : Control Cost) → Same c d → left_tools d ≡ left_tools c
  Same-left_tools c d (retries, most, used) = rw (most, used) refl

  over-Spends :
      (most : Option ℕ) (used : ℕ)
      → Spends
          (if is_over costs surroundings most (used + 1) then 0 else 1)
          (left_of most used)
          (left_of most (used + 1))
  over-Spends none used = tt
  over-Spends (some most) used = ground arith

  use_tool-Spends :
      (c : Control Cost)
      → let x = use_tool costs surroundings c in
        Spends (answers_ok x.0) (left_tools c) (left_tools x.1)
  unfolding use_tool
  use_tool-Spends c =
      let spent = over-Spends c.max_tool_invocations c.tool_invocations in
      elim (Bool-cases
        (is_over costs surroundings c.max_tool_invocations (c.tool_invocations + 1))) [
          | inl e ↦ rw e (rw e at spent)
          | inr e ↦ rw e (rw e at spent)
        ]

  invocation-Spends :
      (c : Control Cost)
      → let x = record_tool_invocation costs surroundings c in
        Spends (answers_ok x.0) (left_tools c) (left_tools x.1)
  unfolding record_tool_invocation
  invocation-Spends c =
      let checked = check costs surroundings c in
      let kept = Same-left_tools c checked.1 (check-Same c) in
      after_case (λ x. Spends (answers_ok x.0) (left_tools c) (left_tools x.1)) checked.0 _
        checked.1 (λ e. rw kept (Spends-none (left_tools c)))
        (λ u h.
          Spends-from _ (left_tools checked.1) (left_tools c) _ kept (use_tool-Spends checked.1))

  abbrev SameTools : Control Cost → Control Cost → Type 0
  SameTools c d =
      (d.max_tool_invocations ≡ c.max_tool_invocations) × (d.tool_invocations ≡ c.tool_invocations)

  consume-SameTools :
      (remaining : Option ℕ) (c : Control Cost)
      → SameTools c (consume_retry costs surroundings remaining c).1
  consume-SameTools none c = (refl, refl)
  consume-SameTools (some remaining) c =
      if_case (λ (x : Result Bool × Control Cost). SameTools c x.1) (remaining == 0) (refl, refl)
        (refl, refl)

  retry-left_tools :
      (c : Control Cost) → left_tools (admit_retry costs surroundings c).1 ≡ left_tools c
  unfolding admit_retry
  retry-left_tools c =
      let checked = check costs surroundings c in
      let kept = Same-left_tools c checked.1 (check-Same c) in
      after_case (λ x. left_tools x.1 ≡ left_tools c) checked.0 _ checked.1 (λ e. kept)
        (λ u h.
          let (most, used) = consume-SameTools checked.1.remaining_retries checked.1 in
          rw (most, used) kept)

  tool-Spends :
      (call : Call) (c : Control Cost)
      → Spends (tool_grants call c) (left_tools c) (left_tools (perform call c))
  tool-Spends checking c =
      rw (Same-left_tools c (check costs surroundings c).1 (check-Same c))
        (Spends-none (left_tools c))
  tool-Spends invoking c = invocation-Spends c
  tool-Spends retrying c = rw (retry-left_tools c) (Spends-none (left_tools c))
  tool-Spends (using i o cost) c =
      rw
        (Same-left_tools c (record_provider_usage costs surroundings i o cost c).1
          (usage-Same i o cost c))
        (Spends-none (left_tools c))

  abbrev pub KeepsBudgets : Limits Cost → List Call → Result (Control Cost) → Type 0
  KeepsBudgets limits calls (err e) = Unit
  KeepsBudgets limits calls (ok c) =
      Within limits.max_retries (total retry_grants calls c)
      × Within limits.max_tool_invocations (total tool_grants calls c)

  fresh-KeepsBudgets :
      (limits : Limits Cost) (calls : List Call) (c : Control Cost)
      → c.remaining_retries ≡ limits.max_retries
      → left_tools c ≡ limits.max_tool_invocations
      → KeepsBudgets limits calls (ok c)
  fresh-KeepsBudgets limits calls c retries tools =
      let retried = total-Within (λ d. d.remaining_retries) retry_grants retry-Spends calls c in
      let invoked = total-Within left_tools tool_grants tool-Spends calls c in
      (Within-from _ _ _ retries retried, Within-from _ _ _ tools invoked)

  left_all : (most : Option ℕ) → left_of most 0 ≡ most
  left_all none = refl
  left_all (some most) = ap some (omega arith)

  -- Over any calls of a new control, the retries that are admitted are within the configured
  -- number, and so are the tool invocations that are let through.
  pub new_control-KeepsBudgets :
      (limits : Limits Cost) (calls : List Call)
      → KeepsBudgets limits calls (new_control costs surroundings limits)
  unfolding new_control
  new_control-KeepsBudgets limits calls =
      if_case (KeepsBudgets limits calls) (is_zero limits.timeout_seconds) tt (
        if_case (KeepsBudgets limits calls) (is_zero limits.max_total_tokens) tt (
          if_case (KeepsBudgets limits calls) (is_negative costs surroundings limits.max_cost) tt (
            if_case (KeepsBudgets limits calls) (is_zero limits.max_tool_invocations) tt
              (fresh-KeepsBudgets limits calls _ refl (left_all limits.max_tool_invocations)))))
