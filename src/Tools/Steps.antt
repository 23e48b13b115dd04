-- ===== src/Tools/Steps.antt =====
-- What one round of the retry loop does: when it goes on, what it caches, and what it leaves alone.
use enterprise_agent_harness.Prelude.{
  ℕ, ◌<◌, String, ◌≡◌, refl, ◌⊎◌, inl, inr, Bool, true, false, ◌&&◌, Option, none, some, arith,
  Bool-cases, if_case,
}
use enterprise_agent_harness.Dict.{get, get-put_self}
use enterprise_agent_harness.Method.{Result, ok, err, Error, tool_invocation}
use enterprise_agent_harness.Contracts.{ToolResultStatus, ToolResult}
use enterprise_agent_harness.Tools.Invoke.{Failure, result, failure}
use enterprise_agent_harness.Tools.Registry.{CacheKey, cache_key_eq}
use enterprise_agent_harness.Tools.Invocation.{
  record_execution, with_metadata, store_if, give_up, give_result, paused, sleep_then, admitted,
  after_admission, on_failure, conclude, on_result, settle,
}
use enterprise_agent_harness.Tools.Retry.{
  Caller, World, Action, AttemptEnd, ended, aborted, Step, again, leave, max_attempts,
  retry_allowed, should_retry, should_retry_result, is_failed, is_cacheable, failure_status,
  reason_code, abort_code,
}

pub Step-cases :
    (s : Step) → ((e : Error) × (s ≡ again e)) ⊎ ((r : Result ToolResult) × (s ≡ leave r))
Step-cases (again e) = inl (e, refl)
Step-cases (leave r) = inr (r, refl)

-- Only a failed result is retried, and no failed result is cached.
failed_uncached : (s : ToolResultStatus) → is_failed s ≡ true → is_cacheable s ≡ false
failed_uncached ToolResultStatus.failed h = refl
failed_uncached ToolResultStatus.succeeded h = absurd (cc)
failed_uncached ToolResultStatus.empty h = absurd (cc)
failed_uncached _ h = refl

module _ {Args A : Type 0} (caller : Caller Args A) (action : Action Args) where
  -- The last attempt is not retried, and neither is an action that may not be repeated.
  abbrev pub GoesOn : ℕ → Type 0
  GoesOn attempt = (attempt < max_attempts action.tool) × (retry_allowed action ≡ true)

  should_retry-GoesOn :
      (f : Failure) (attempt : ℕ) → should_retry action f attempt ≡ true → GoesOn attempt
  unfolding should_retry
  should_retry-GoesOn f attempt h = ground arith

  should_retry_result-GoesOn :
      (r : ToolResult) (attempt : ℕ) → should_retry_result action r attempt ≡ true → GoesOn attempt
  unfolding should_retry_result
  should_retry_result-GoesOn r attempt h = ground arith

  failure-GoesOn :
      (attempt : ℕ) (f : Failure) (w : World A) {e : Error}
      → (on_failure caller action attempt f w).0 ≡ again e
      → GoesOn attempt
  unfolding on_failure
  failure-GoesOn attempt f w h = elim (Bool-cases (should_retry action f attempt)) [
    | inl goes ↦ should_retry-GoesOn f attempt goes
    | inr stops ↦ absurd (ground (arith, h, stops))
  ]

  result-GoesOn :
      (attempt : ℕ) (r : ToolResult) (w : World A) {e : Error}
      → (on_result caller action attempt r w).0 ≡ again e
      → GoesOn attempt
  unfolding on_result conclude
  result-GoesOn attempt r w h =
      elim (Bool-cases (is_failed r.status && should_retry_result action r attempt)) [
        | inl goes ↦ should_retry_result-GoesOn r attempt (ground arith)
        | inr stops ↦ absurd (ground (arith, h, stops))
      ]

  pub settle-GoesOn :
      (attempt : ℕ) (end : AttemptEnd) (w : World A) {e : Error}
      → (settle caller action attempt end w).0 ≡ again e
      → GoesOn attempt
  settle-GoesOn attempt (aborted e) w h = absurd (cc)
  settle-GoesOn attempt (ended (failure f)) w h = failure-GoesOn attempt f w h
  settle-GoesOn attempt (ended (result r)) w h = result-GoesOn attempt r w h

  -- The state after a round: the tools and the count of attempts are those before it.
  abbrev pub Keeps : World A → World A → Type 0
  Keeps w after = (after.registry.tools ≡ w.registry.tools) × (after.runs ≡ w.runs)

  after_admission_case :
      (P : Step × World A → Type 0) (answer : Result Bool) (retry refuse : World A → Step × World A)
      (w : World A)
      → ((e : Error) → P (leave (err e), w))
      → P (retry w)
      → P (refuse w)
      → P (after_admission caller answer retry refuse w)
  after_admission_case P (err e) retry refuse w raises retries refuses = raises e
  after_admission_case P (ok true) retry refuse w raises retries refuses = retries
  after_admission_case P (ok false) retry refuse w raises retries refuses = refuses

  admitted-Keeps :
      (callback : Option (A → Result Bool × A)) (w : World A)
      → Keeps w (admitted caller callback w).1
  admitted-Keeps none w = (refl, refl)
  admitted-Keeps (some callback) w = (refl, refl)

  store_if-Keeps :
      (c : Bool) (key : Option CacheKey) (digest : String) (r : ToolResult) (w : World A)
      → Keeps w (store_if caller c key digest r w)
  store_if-Keeps true (some key) digest r w = (refl, refl)
  store_if-Keeps true none digest r w = (refl, refl)
  store_if-Keeps false key digest r w = (refl, refl)

  pub settle-Keeps :
      (attempt : ℕ) (end : AttemptEnd) (w : World A)
      → Keeps w (settle caller action attempt end w).1
  unfolding on_failure on_result conclude record_execution
  settle-Keeps attempt (aborted e) w = (refl, refl)
  settle-Keeps attempt (ended (failure f)) w =
      let before = admitted-Keeps caller.retry_admission w in
      if_case (λ (x : Step × World A). Keeps w x.1) (should_retry action f attempt)
        (after_admission_case (λ x. Keeps w x.1) (admitted caller caller.retry_admission w).0 _ _ _
          (λ e. before) before before)
        (refl, refl)
  settle-Keeps attempt (ended (result r)) w =
      let before = admitted-Keeps caller.retry_admission w in
      let final = with_metadata caller action.tool attempt r in
      if_case (λ (x : Step × World A). Keeps w x.1)
        (is_failed r.status && should_retry_result action r attempt)
        (after_admission_case (λ x. Keeps w x.1) (admitted caller caller.retry_admission w).0 _ _ _
          (λ e. before) before before)
        (store_if-Keeps (is_cacheable r.status) action.cache_key action.argument_digest final w)

  -- A result that ends the loop and may be cached is in the cache.
  abbrev pub Caches : Step × World A → Type 0
  Caches x =
      (r : ToolResult) (key : CacheKey)
      → x.0 ≡ leave (ok r)
      → is_cacheable r.status ≡ true
      → action.cache_key ≡ some key
      → get key x.1.registry.idempotency
        ≡ some (record { argument_digest = action.argument_digest; result = r })

  raises-Caches : (e : Error) (w : World A) → Caches (leave (err e), w)
  raises-Caches e w r key h cacheable keyed = absurd (cc)

  pauses-Caches : (cut : Option Error) (e : Error) (w : World A) → Caches (paused caller cut e, w)
  pauses-Caches none e w r key h cacheable keyed = absurd (cc)
  pauses-Caches (some cut) e w r key h cacheable keyed = absurd (cc)

  refuses-Caches :
      (attempt : ℕ) (r : ToolResult) (w : World A)
      → is_failed r.status ≡ true
      → Caches (give_result caller action attempt (with_metadata caller action.tool attempt r) w)
  refuses-Caches attempt r w failed q key h cacheable keyed =
      let uncached = failed_uncached r.status failed in
      let same : is_cacheable r.status ≡ is_cacheable q.status = cc in absurd (cc)

  store_if-get :
      (r : ToolResult) (key : CacheKey) (w : World A)
      → is_cacheable r.status ≡ true
      → action.cache_key ≡ some key
      → get key
          (store_if caller
            (is_cacheable r.status)
            action.cache_key
            action.argument_digest
            r
            w).registry.idempotency
        ≡ some (record { argument_digest = action.argument_digest; result = r })
  store_if-get r key w cacheable keyed =
      rw (cacheable, keyed) (get-put_self key _ w.registry.idempotency)

  conclude-Caches :
      (attempt : ℕ) (r : ToolResult) (w : World A) → Caches (conclude caller action attempt r w)
  unfolding conclude record_execution
  conclude-Caches attempt r w q key h cacheable keyed =
      let final = with_metadata caller action.tool attempt r in
      let same : final ≡ q = cc in let kept = store_if-get final key w (cc) keyed in cc

  pub settle-Caches :
      (attempt : ℕ) (end : AttemptEnd) (w : World A) → Caches (settle caller action attempt end w)
  unfolding on_failure on_result
  settle-Caches attempt (aborted e) w =
      raises-Caches e (give_up caller action ToolResultStatus.failed attempt (abort_code e) e w).1
  settle-Caches attempt (ended (failure f)) w =
      let before = (admitted caller caller.retry_admission w).1 in
      let error = tool_invocation f.code in
      let failed = give_up caller action ToolResultStatus.failed attempt f.code error before in
      let refused = give_up caller action (failure_status f.code) attempt f.code error w in
      if_case Caches (should_retry action f attempt)
        (after_admission_case Caches (admitted caller caller.retry_admission w).0 _ _ before
          (λ e. raises-Caches e before)
          (pauses-Caches (caller.pause before.pauses) error (sleep_then caller error before).1)
          (raises-Caches error failed.1))
        (raises-Caches error refused.1)
  settle-Caches attempt (ended (result r)) w =
      let before = (admitted caller caller.retry_admission w).1 in
      let error = tool_invocation (reason_code r.error_code) in
      elim (Bool-cases (is_failed r.status && should_retry_result action r attempt)) [
        | inl goes ↦ rw goes (
            after_admission_case Caches (admitted caller caller.retry_admission w).0 _ _ before
              (λ e. raises-Caches e before)
              (pauses-Caches (caller.pause before.pauses) error (sleep_then caller error before).1)
              (refuses-Caches attempt r before (ground arith)))
        | inr stops ↦ rw stops (conclude-Caches attempt r w)
      ]
