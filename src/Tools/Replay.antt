-- ===== src/Tools/Replay.antt =====
-- What the idempotency cache promises: a call that is repeated with its key is answered from it.
use enterprise_agent_harness.Prelude.{
  String, ◌&&◌, ℕ, zero, suc, ◌+◌, ◌≡◌, refl, inl, inr, Bool, true, false, Option, none, some,
  arith, ap, is_some, Bool-cases, if_case, not, ◌==◌, string_eq, eq_iff, ◌∙◌,
}
use enterprise_agent_harness.Dict.{Dict, get}
use enterprise_agent_harness.Method.{Result, ok, Error}
use enterprise_agent_harness.Contracts.{ToolResult, ExecutionContext}
use enterprise_agent_harness.Tools.Definitions.{ToolDefinition}
use enterprise_agent_harness.Tools.Registry.{
  Registry, CacheKey, cache_key_eq, IdempotencyEntry, find,
}
use enterprise_agent_harness.Tools.Invocation.{run_attempt, settle, record_execution}
use enterprise_agent_harness.Tools.Retry.{Caller, World, Action, is_cacheable}
use enterprise_agent_harness.Tools.Execution.{
  Request, has_blank_key, invoke_loop, invoke_locked, invoke_cached, invoke_tool, invoke, action_of,
  entry_at, cache_key, replayed,
}
use enterprise_agent_harness.Tools.Steps.{settle-Caches, settle-Keeps}
use enterprise_agent_harness.Tools.Attempts.{continue_or_end_case, invoke_tool_case}

module _ {Args A : Type 0} (caller : Caller Args A) where
  -- The tools are those before the call.
  loop-tools :
      (action : Action Args) (rounds attempts : ℕ) (last : Option Error) (w : World A)
      → (invoke_loop caller action rounds attempts last w).1.registry.tools ≡ w.registry.tools
  unfolding invoke_loop run_attempt
  loop-tools action zero attempts last w = refl
  loop-tools action (suc rounds) attempts last w =
      let attempt = run_attempt caller action w in
      let step = settle caller action (attempts + 1) attempt.0 attempt.1 in
      let kept = settle-Keeps caller action (attempts + 1) attempt.0 attempt.1 in
      continue_or_end_case (λ x. x.1.registry.tools ≡ w.registry.tools) step.0 _ step.1
        (λ e h. let rest = loop-tools action rounds (attempts + 1) (some e) step.1 in cc)
        (λ end h. kept.0)

  cached-tools :
      (action : Action Args) (entry : Option IdempotencyEntry) (w : World A)
      → (invoke_cached caller action entry w).1.registry.tools ≡ w.registry.tools
  unfolding invoke_cached invoke_locked record_execution
  cached-tools action none w = loop-tools action _ 0 none w
  cached-tools action (some cached) w =
      if_case (λ (x : Result ToolResult × World A). x.1.registry.tools ≡ w.registry.tools)
        (not (cached.argument_digest == action.argument_digest)) refl refl

  invoke_tool-tools :
      (request : Request Args) (tool : ToolDefinition) (w : World A)
      → (invoke_tool caller request tool w).1.registry.tools ≡ w.registry.tools
  unfolding record_execution
  invoke_tool-tools request tool w =
      invoke_tool_case caller (λ x. x.1.registry.tools ≡ w.registry.tools) request tool w
        (λ status code. refl) (cached-tools (action_of caller request tool) _ w)

  find-tools :
      (tool_id : String) (version : Option String) (include_inactive : Bool) (q r : Registry)
      → q.tools ≡ r.tools
      → find tool_id version include_inactive q ≡ find tool_id version include_inactive r
  unfolding find
  find-tools tool_id (some version) include_inactive q r h = rw h refl
  find-tools tool_id none true q r h = rw h refl
  find-tools tool_id none false q r h = rw h refl

  -- The cache answers the key and the arguments as `r` does.
  abbrev Remembers : Option CacheKey → String → ToolResult → Dict CacheKey IdempotencyEntry → Type 0
  Remembers key digest r cache =
      (cached : IdempotencyEntry) × (entry_at caller key cache ≡ some cached)
      × (cached.argument_digest ≡ digest)
      × (cached.result.status ≡ r.status)
      × (cached.result.output ≡ r.output)

  abbrev EndsCached : Action Args → ToolResult → Result ToolResult × World A → Type 0
  EndsCached action r x =
      x.0 ≡ ok r → Remembers action.cache_key action.argument_digest r x.1.registry.idempotency

  entry_at_key :
      (o : Option CacheKey) (key : CacheKey) (cache : Dict CacheKey IdempotencyEntry)
      → o ≡ some key
      → entry_at caller o cache ≡ get key cache
  entry_at_key o key cache h = rw h refl

  loop-Remembers :
      (action : Action Args) (rounds attempts : ℕ) (last : Option Error) (w : World A)
      (r : ToolResult) (key : CacheKey)
      → is_cacheable r.status ≡ true
      → action.cache_key ≡ some key
      → EndsCached action r (invoke_loop caller action rounds attempts last w)
  unfolding invoke_loop
  loop-Remembers action zero attempts last w r key cacheable keyed = λ h. absurd (cc)
  loop-Remembers action (suc rounds) attempts last w r key cacheable keyed =
      let attempt = run_attempt caller action w in
      let step = settle caller action (attempts + 1) attempt.0 attempt.1 in
      continue_or_end_case (EndsCached action r) step.0 _ step.1
        (λ e h. loop-Remembers action rounds (attempts + 1) (some e) step.1 r key cacheable keyed)
        (λ end h got.
          let stored =
            settle-Caches caller action (attempts + 1) attempt.0 attempt.1 r key (cc) cacheable
              keyed in
          (
            record { argument_digest = action.argument_digest; result = r },
            entry_at_key action.cache_key key _ keyed ∙ stored,
            refl,
            refl,
            refl,
          ))

  cached-Remembers :
      (action : Action Args) (w : World A) (r : ToolResult) (key : CacheKey)
      (entry : Option IdempotencyEntry)
      → entry_at caller action.cache_key w.registry.idempotency ≡ entry
      → is_cacheable r.status ≡ true
      → action.cache_key ≡ some key
      → EndsCached action r (invoke_cached caller action entry w)
  unfolding invoke_cached invoke_locked record_execution replayed
  cached-Remembers action w r key none at cacheable keyed =
      loop-Remembers action _ 0 none w r key cacheable keyed
  cached-Remembers action w r key (some cached) at cacheable keyed =
      elim (Bool-cases (cached.argument_digest == action.argument_digest)) [
        | inl same ↦ rw same (λ h.
            let got : replayed caller action.context cached.result ≡ r = cc in
            (
              cached,
              at,
              (eq_iff _ _).0 same,
              ap (λ (x : ToolResult). x.status) got,
              ap (λ (x : ToolResult). x.output) got,
            ))
        | inr other ↦ rw other (λ h. absurd (cc))
      ]

  -- The guards of `invoke` before the lookup in the cache let the call through.
  abbrev Admitted : Request Args → ToolDefinition → Type 0
  Admitted request tool =
      (caller.application.accepts tool request.arguments ≡ true)
      × (has_blank_key request.idempotency_key ≡ false)
      × (tool.idempotency_required && not (is_some request.idempotency_key) ≡ false)

  ok-Admitted :
      (request : Request Args) (tool : ToolDefinition) (w : World A) (r : ToolResult)
      → (invoke_tool caller request tool w).0 ≡ ok r
      → Admitted request tool
  unfolding invoke_tool
  ok-Admitted request tool w r h = ground (arith, h)

  Admitted-invoke_tool :
      (request : Request Args) (tool : ToolDefinition) (w : World A)
      → Admitted request tool
      → invoke_tool caller request tool w
        ≡ invoke_cached caller
            (action_of caller request tool)
            (entry_at caller
              (cache_key tool request.context request.idempotency_key)
              w.registry.idempotency)
            w
  unfolding invoke_tool
  Admitted-invoke_tool request tool w (accepted, keyed, required) =
      rw (accepted, keyed, required) refl

  cache_key_same :
      (tool : ToolDefinition) (c d : ExecutionContext) (key : Option String)
      → c.principal ≡ d.principal
      → cache_key tool c key ≡ cache_key tool d key
  cache_key_same tool c d none h = refl
  cache_key_same tool c d (some key) h = cc

  cache_key_some :
      (tool : ToolDefinition) (c : ExecutionContext) (given : Option String) (key : String)
      → given ≡ some key
      → (at : CacheKey) × (cache_key tool c given ≡ some at)
  cache_key_some tool c none key h = absurd (cc)
  cache_key_some tool c (some given) key h = (_, refl)

  -- An answer from the cache that is as `r`, with the application left as in `w`.
  abbrev pub Replays : ToolResult → World A → Result ToolResult × World A → Type 0
  Replays r w x =
      (answer : ToolResult) × (x.0 ≡ ok answer)
      × (answer.status ≡ r.status)
      × (answer.output ≡ r.output)
      × (x.1.app ≡ w.app)
      × (x.1.runs ≡ w.runs)

  Remembers-Replays :
      (action : Action Args) (r : ToolResult) (w : World A) (entry : Option IdempotencyEntry)
      → entry_at caller action.cache_key w.registry.idempotency ≡ entry
      → Remembers action.cache_key action.argument_digest r w.registry.idempotency
      → Replays r w (invoke_cached caller action entry w)
  unfolding invoke_cached replayed record_execution
  Remembers-Replays action r w none at (cached, found, digest, status, output) = absurd (cc)
  Remembers-Replays action r w (some entry) at (cached, found, digest, status, output) =
      let same : entry ≡ cached = cc in
      let matches : (entry.argument_digest == action.argument_digest) ≡ true =
        (eq_iff _ _).1 (cc) in
      rw matches (replayed caller action.context entry.result, refl, cc, cc, refl, refl)

  invoke_tool-Replays :
      (request : Request Args) (other : ExecutionContext) (tool : ToolDefinition) (key : String)
      (r : ToolResult) (w : World A)
      → request.idempotency_key ≡ some key
      → other.principal ≡ request.context.principal
      → (invoke_tool caller request tool w).0 ≡ ok r
      → is_cacheable r.status ≡ true
      → let after = (invoke_tool caller request tool w).1 in
        Replays r after (invoke_tool caller (record request { context = other }) tool after)
  invoke_tool-Replays request other tool key r w keyed same h cacheable =
      let action = action_of caller request tool in
      let repeat = record request { context = other } in
      let admitted = ok-Admitted request tool w r h in
      let first = Admitted-invoke_tool request tool w admitted in
      let cache = w.registry.idempotency in
      let after = (invoke_tool caller request tool w).1 in
      let (cached_at, keyed_by) =
        cache_key_some tool request.context request.idempotency_key key keyed in
      let ended : (invoke_cached caller action (entry_at caller action.cache_key cache) w).0
          ≡ ok r =
        cc in
      let remembers = cached-Remembers action w r cached_at _ refl cacheable keyed_by ended in
      let kept : Remembers (cache_key tool other request.idempotency_key) action.argument_digest r
          after.registry.idempotency =
        rw (first, cache_key_same tool other request.context request.idempotency_key same)
          remembers in
      rw (Admitted-invoke_tool repeat tool after admitted)
        (Remembers-Replays (action_of caller repeat tool) r after _ refl kept)

  invoke_as :
      (request : Request Args) (tool : ToolDefinition) (w : World A)
      → find request.tool_id request.version false w.registry ≡ ok tool
      → invoke caller request w ≡ invoke_tool caller request tool w
  unfolding invoke
  invoke_as request tool w found = rw found refl

  -- A call with an idempotency key that ended in a result that can be cached, repeated by the same
  -- principal in any execution, is answered with the status and the output of that result; the
  -- handler is not called again, and the application's state is not touched.
  pub invoke-Replays :
      (request : Request Args) (other : ExecutionContext) (tool : ToolDefinition) (key : String)
      (r : ToolResult) (w : World A)
      → find request.tool_id request.version false w.registry ≡ ok tool
      → request.idempotency_key ≡ some key
      → other.principal ≡ request.context.principal
      → (invoke caller request w).0 ≡ ok r
      → is_cacheable r.status ≡ true
      → let after = (invoke caller request w).1 in
        Replays r after (invoke caller (record request { context = other }) after)
  invoke-Replays request other tool key r w found keyed same h cacheable =
      let after = (invoke_tool caller request tool w).1 in
      let tools = invoke_tool-tools request tool w in
      let still =
        find-tools request.tool_id request.version false after.registry w.registry tools in
      let first = invoke_as request tool w found in
      let second = invoke_as (record request { context = other }) tool after (still ∙ found) in
      rw (first, second) (invoke_tool-Replays request other tool key r w keyed same (cc) cacheable)
