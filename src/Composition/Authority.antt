-- ===== src/Composition/Authority.antt =====
-- What `delegate` hands on: never more than the parent holds, and never beyond the depth allowed.
use enterprise_agent_harness.Prelude.{
  ◌+◌, ◌≤◌, ◌<◌, String, ◌≡◌, refl, true, false, ◌&&◌, not, Option, none, some, arith, contains,
  subset, unique, nonempty, leb, string_eq, if_case, if_split, if◌then◌else◌,
}
use enterprise_agent_harness.Method.{Result, ok, err, Error, value_error, after_case}
use enterprise_agent_harness.Contracts.{risk_order, ExecutionContext}
use enterprise_agent_harness.Composition.Contracts.{
  DelegationRequest, DelegatedExecutionContext, DelegationResult,
}
use enterprise_agent_harness.Composition.Delegate.{
  Factory, Settings, Composer, authorized, reserve, delegated, run_child, delegate_under, delegate,
}
use enterprise_agent_harness.Composition.Limits.{
  Ceiling, request_error, unless_error, parent_path, child_identity,
}
use enterprise_agent_harness.Composition.Ceilings.{CeilingHeld, ceiling-CeilingHeld}

request_permitted :
    (parent : ExecutionContext) (request : DelegationRequest)
    → request_error parent request ≡ none
    → nonempty request.requested_permissions
        && not (subset request.requested_permissions parent.granted_permissions)
      ≡ false
unfolding request_error
request_permitted parent request h = ground (arith, h)

-- The child's context against its parent's.
abbrev pub WithinParent : Settings → ExecutionContext → DelegatedExecutionContext → Type 0
WithinParent settings parent child =
    (subset child.authorized_tool_ids parent.authorized_tool_ids ≡ true)
    × (subset child.authorized_tool_versions parent.authorized_tool_versions ≡ true)
    × (subset child.granted_permissions parent.granted_permissions ≡ true)
    × (risk_order child.max_risk_level ≤ risk_order parent.max_risk_level)
    × (child.max_steps ≤ parent.max_steps)
    × (child.delegation_depth ≡ parent.delegation_depth + 1)
    × (child.delegation_depth ≤ settings.max_delegation_depth)

module _ {S : Type 0} (factory : Factory S) (settings : Settings) where
  abbrev Permitted : ExecutionContext → Result Ceiling → Type 0
  Permitted parent r =
      CeilingHeld parent r × (parent.delegation_depth < settings.max_delegation_depth)

  abbrev Allows : ExecutionContext → Result Ceiling → Type 0
  Allows parent r = (limits : Ceiling) → r ≡ ok limits → Permitted parent (ok limits)

  raises-Allows : (parent : ExecutionContext) (e : Error) → Allows parent (err e)
  raises-Allows parent e limits h = absurd (cc)

  held-Allows :
      (parent : ExecutionContext) (r : Result Ceiling)
      → CeilingHeld parent r
      → parent.delegation_depth < settings.max_delegation_depth
      → Allows parent r
  held-Allows parent r held below limits h = (rw h at held, below)

  asked-Allows :
      (parent : ExecutionContext) (error : Option Error) (r : Result Ceiling)
      → (error ≡ none → Allows parent r)
      → Allows parent (unless_error error r)
  asked-Allows parent none r goes = goes refl
  asked-Allows parent (some e) r goes = raises-Allows parent e

  authorized-Allows :
      (parent : ExecutionContext) (request : DelegationRequest) (s : S)
      → Allows parent (authorized factory settings parent request s)
  unfolding authorized
  authorized-Allows parent request s =
      asked-Allows parent (request_error parent request) _ (λ asked.
        if_split (Allows parent) (leb settings.max_delegation_depth parent.delegation_depth)
          (λ deep. raises-Allows parent _)
          (λ below.
            if_case (Allows parent) (contains (child_identity request) (parent_path parent))
              (raises-Allows parent _)
              (held-Allows parent _
                (ceiling-CeilingHeld parent request _ _ (request_permitted parent request asked))
                (ground (arith, below)))))

  -- The context in a result is the one that the ceiling gives.
  abbrev Bears : ExecutionContext → DelegationRequest → Ceiling → Result DelegationResult → Type 0
  Bears parent request limits (err e) = Unit
  Bears parent request limits (ok result) =
      (execution_id : String) × (result.context
        ≡ delegated factory settings parent request limits execution_id)

  run_child-Bears :
      (parent : ExecutionContext) (request : DelegationRequest) (limits : Ceiling)
      (ids : String × String) (c : Composer S)
      → Bears parent request limits (run_child factory settings parent request limits ids c).0
  unfolding run_child
  run_child-Bears parent request limits ids c =
      let context = delegated factory settings parent request limits ids.0 in
      let end = factory.execute limits.child request.input_text ids.1 context c.agents in
      after_case (λ x. Bears parent request limits x.0) end.0 _ _ (λ e. tt) (λ o ran. (ids.0, refl))

  delegate_under-Bears :
      (parent : ExecutionContext) (request : DelegationRequest) (limits : Ceiling) (c : Composer S)
      → Bears parent request limits (delegate_under factory settings parent request limits c).0
  unfolding delegate_under
  delegate_under-Bears parent request limits c =
      let end = reserve factory settings parent request c in
      after_case (λ x. Bears parent request limits x.0) end.0 _ end.1 (λ e. tt)
        (λ ids reserved.
          after_case (λ x. Bears parent request limits x.0)
            (if not (unique limits.path) then err value_error else ok tt) _ end.1 (λ e. tt)
            (λ u checked. run_child-Bears parent request limits ids end.1))

  -- A child's context holds no more tools, permissions, risk or steps than its parent's, and is one
  -- level deeper, at most as deep as the composer allows.
  pub delegate-WithinParent :
      (parent : ExecutionContext) (request : DelegationRequest) (c : Composer S)
      (result : DelegationResult)
      → (delegate factory settings parent request c).0 ≡ ok result
      → WithinParent settings parent result.context
  unfolding delegate
  delegate-WithinParent parent request c result h =
      after_case (λ x. x.0 ≡ ok result → WithinParent settings parent result.context)
        (authorized factory settings parent request c.agents)
        (delegate_under factory settings parent request) c (λ e ended. absurd (cc))
        (λ limits allowed ended.
          let (held, below) = authorized-Allows parent request c.agents limits allowed in
          let (execution_id, bears) = rw ended at (delegate_under-Bears parent request limits c) in
          let (ids, versions, granted, risk, steps, required) = held in
          rw bears (ids, versions, granted, risk, steps, refl, omega arith))
        h
