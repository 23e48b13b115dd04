-- ===== src/Composition/Once.antt =====
-- The delegation IDs of an execution: each is used once.
use enterprise_agent_harness.Prelude.{
  String, ◌≡◌, ◌≢◌, refl, false, List, [], ◌∷◌, contains, string_eq, unique, not, if◌then◌else◌,
}
use enterprise_agent_harness.Method.{Result, ok, err, value_error, after, after_case}
use enterprise_agent_harness.Contracts.{ExecutionContext}
use enterprise_agent_harness.Composition.Contracts.{DelegationRequest, DelegationResult}
use enterprise_agent_harness.Composition.Delegate.{
  Factory, Settings, Composer, authorized, delegated_ids, reserve, delegated, run_child,
  delegate_under, delegate,
}
use enterprise_agent_harness.Composition.Limits.{Ceiling}
use enterprise_agent_harness.Composition.Reservations.{
  Used, Reserves, reserve-keeps, reserve-Reserves,
}

module _ {S : Type 0} (factory : Factory S) (settings : Settings) where
  run_child-ids :
      (parent : ExecutionContext) (request : DelegationRequest) (limits : Ceiling)
      (ids : String × String) (c : Composer S)
      → (run_child factory settings parent request limits ids c).1.delegation_ids ≡ c.delegation_ids
  unfolding run_child
  run_child-ids parent request limits ids c =
      let context = delegated factory settings parent request limits ids.0 in
      let end = factory.execute limits.child request.input_text ids.1 context c.agents in
      after_case
        (λ (x : Result DelegationResult × Composer S). x.1.delegation_ids ≡ c.delegation_ids) end.0
        _ _ (λ e. refl) (λ o ran. refl)

  delegate_under-keeps :
      (parent : ExecutionContext) (request : DelegationRequest) (limits : Ceiling)
      (execution_id delegation_id : String) (c : Composer S)
      → Used factory settings execution_id delegation_id c
      → Used factory settings execution_id delegation_id
          (delegate_under factory settings parent request limits c).1
  unfolding delegate_under
  delegate_under-keeps parent request limits execution_id delegation_id c used =
      let end = reserve factory settings parent request c in
      let kept = reserve-keeps factory settings parent request execution_id delegation_id c used in
      after_case (λ x. Used factory settings execution_id delegation_id x.1) end.0 _ end.1
        (λ e. kept)
        (λ ids reserved.
          after_case (λ x. Used factory settings execution_id delegation_id x.1)
            (if not (unique limits.path) then err value_error else ok tt) _ end.1 (λ e. kept)
            (λ u checked. rw (run_child-ids parent request limits ids end.1) kept))

  delegate-keeps :
      (parent : ExecutionContext) (request : DelegationRequest)
      (execution_id delegation_id : String) (c : Composer S)
      → Used factory settings execution_id delegation_id c
      → Used factory settings execution_id delegation_id
          (delegate factory settings parent request c).1
  unfolding delegate
  delegate-keeps parent request execution_id delegation_id c used =
      after_case (λ x. Used factory settings execution_id delegation_id x.1)
        (authorized factory settings parent request c.agents)
        (delegate_under factory settings parent request) c (λ e. used)
        (λ limits allowed.
          delegate_under-keeps parent request limits execution_id delegation_id c used)

  -- The same of a delegation.
  abbrev Delegates :
      ExecutionContext
      → DelegationRequest
      → Composer S
      → Result DelegationResult × Composer S
      → Type 0
  Delegates parent request c (err e, after_it) = Unit
  Delegates parent request c (ok result, after_it) =
      (contains request.delegation_id (delegated_ids factory settings parent.execution_id c)
        ≡ false)
      × Used factory settings parent.execution_id request.delegation_id after_it

  ended-Delegates :
      (parent : ExecutionContext) (request : DelegationRequest) (c : Composer S)
      (x : Result DelegationResult × Composer S)
      → contains request.delegation_id (delegated_ids factory settings parent.execution_id c)
        ≡ false
      → Used factory settings parent.execution_id request.delegation_id x.1
      → Delegates parent request c x
  ended-Delegates parent request c (err e, d) fresh used = tt
  ended-Delegates parent request c (ok result, d) fresh used = (fresh, used)

  reserved-Delegates :
      (parent : ExecutionContext) (request : DelegationRequest) (limits : Ceiling) (c : Composer S)
      (reserved : Result (String × String) × Composer S)
      → Reserves factory settings parent request c reserved
      → Delegates parent request c (
          after reserved.0
            (λ ids d.
              after {0, 0, 0}
                (if not (unique limits.path) then err value_error else ok tt)
                (λ u. run_child factory settings parent request limits ids)
                d)
            reserved.1)
  reserved-Delegates parent request limits c (err e, d) held = tt
  reserved-Delegates parent request limits c (ok ids, d) (fresh, used) =
      after_case (Delegates parent request c)
        (if not (unique limits.path) then err value_error else ok tt) _ d (λ e. tt)
        (λ u checked.
          ended-Delegates parent request c (run_child factory settings parent request limits ids d)
            fresh (rw (run_child-ids parent request limits ids d) used))

  delegate-Delegates :
      (parent : ExecutionContext) (request : DelegationRequest) (c : Composer S)
      → Delegates parent request c (delegate factory settings parent request c)
  unfolding delegate delegate_under
  delegate-Delegates parent request c =
      after_case (Delegates parent request c) (authorized factory settings parent request c.agents)
        (delegate_under factory settings parent request) c (λ e. tt)
        (λ limits allowed.
          reserved-Delegates parent request limits c (reserve factory settings parent request c)
            (reserve-Reserves factory settings parent request c))

  Delegates-ok :
      (parent : ExecutionContext) (request : DelegationRequest) (c : Composer S)
      (x : Result DelegationResult × Composer S) (result : DelegationResult)
      → Delegates parent request c x
      → x.0 ≡ ok result
      → (contains request.delegation_id (delegated_ids factory settings parent.execution_id c)
          ≡ false)
        × Used factory settings parent.execution_id request.delegation_id x.1
  Delegates-ok parent request c (err e, d) result held h = absurd (cc)
  Delegates-ok parent request c (ok r, d) result held h = held

  abbrev pub delegate_all : List (ExecutionContext × DelegationRequest) → Composer S → Composer S
  delegate_all [] c = c
  delegate_all ((parent, request) ∷ calls) c =
      delegate_all calls (delegate factory settings parent request c).1

  delegate_all-keeps :
      (calls : List (ExecutionContext × DelegationRequest)) (execution_id delegation_id : String)
      (c : Composer S)
      → Used factory settings execution_id delegation_id c
      → Used factory settings execution_id delegation_id (delegate_all calls c)
  delegate_all-keeps [] execution_id delegation_id c used = used
  delegate_all-keeps ((parent, request) ∷ calls) execution_id delegation_id c used =
      delegate_all-keeps calls execution_id delegation_id _
        (delegate-keeps parent request execution_id delegation_id c used)

  -- A delegation ID that led to a result leads to none again in the same parent execution, whatever
  -- is delegated in between.
  pub delegate_once :
      (parent again : ExecutionContext) (request repeat : DelegationRequest)
      (result : DelegationResult) (between : List (ExecutionContext × DelegationRequest))
      (second : DelegationResult) (c : Composer S)
      → (delegate factory settings parent request c).0 ≡ ok result
      → again.execution_id ≡ parent.execution_id
      → repeat.delegation_id ≡ request.delegation_id
      → let later = delegate_all between (delegate factory settings parent request c).1 in
        (delegate factory settings again repeat later).0 ≢ ok second
  delegate_once parent again request repeat result between second c h same_execution same_id twice =
      let first = delegate factory settings parent request c in
      let later = delegate_all between first.1 in
      let (_, used) =
        Delegates-ok parent request c first result (delegate-Delegates parent request c) h in
      let (fresh, _) =
        Delegates-ok again repeat later (delegate factory settings again repeat later) second
          (delegate-Delegates again repeat later) twice in
      let kept =
        delegate_all-keeps between parent.execution_id request.delegation_id first.1 used in
      let now : Used factory settings again.execution_id repeat.delegation_id later =
        rw (same_execution, same_id) kept in
      cc
