-- ===== src/Composition/Reservations.antt =====
-- The delegation IDs of an execution, as the reservation of a child keeps them.
use enterprise_agent_harness.Prelude.{
  String, ◌≡◌, refl, true, false, ◌||◌, List, [], ◌∷◌, ◌++◌, arith, contains, ◌==◌, string_eq,
  eq_iff, beq_refl, or_else, if_case, if_split, if◌then◌else◌,
}
use enterprise_agent_harness.Dict.{Dict, get, put, get-put, get-put_self}
use enterprise_agent_harness.Method.{Result, ok, err, after_case}
use enterprise_agent_harness.Contracts.{ExecutionContext}
use enterprise_agent_harness.Composition.Contracts.{DelegationRequest}
use enterprise_agent_harness.Composition.Delegate.{
  Factory, Settings, Composer, delegated_ids, claim_id, name_child, reserve,
}

contains-append :
    (a : String) (xs ys : List String) → contains a (xs ++ ys) ≡ (contains a xs || contains a ys)
contains-append a [] ys = refl
contains-append a (x ∷ xs) ys = ground (arith, contains-append a xs ys)

ids_put :
    (k j : String) (xs : List String) (d : Dict String (List String))
    → or_else (get j (put k xs d)) [] ≡ (if k == j then xs else or_else (get j d) [])
ids_put k j xs d = ground (arith, get-put k j xs d)

-- A list under a key that lists as much keeps what is listed.
put_keeps :
    (k j id : String) (xs : List String) (d : Dict String (List String))
    → contains id (or_else (get j d) []) ≡ true
    → (contains id (or_else (get k d) []) ≡ true → contains id xs ≡ true)
    → contains id (or_else (get j (put k xs d)) []) ≡ true
put_keeps k j id xs d used more = rw (ids_put k j xs d) (
    if_split (λ (ys : List String). contains id ys ≡ true) (k == j)
      (λ same. let at : k ≡ j = (eq_iff k j).0 same in more (rw at used)) (λ other. used))

put_lists :
    (k id : String) (xs : List String) (d : Dict String (List String))
    → contains id (or_else (get k (put k (xs ++ id ∷ []) d)) []) ≡ true
put_lists k id xs d =
    rw (get-put_self k (xs ++ id ∷ []) d, contains-append id xs (id ∷ []))
      (ground (arith, beq_refl id))

module _ {S : Type 0} (factory : Factory S) (settings : Settings) where
  abbrev pub Used : String → String → Composer S → Type 0
  Used execution_id delegation_id c =
      contains delegation_id (delegated_ids factory settings execution_id c) ≡ true

  claim_id-keeps :
      (parent : ExecutionContext) (request : DelegationRequest)
      (execution_id delegation_id : String) (c : Composer S)
      → Used execution_id delegation_id c
      → Used execution_id delegation_id (claim_id factory settings parent request c).1
  unfolding claim_id
  claim_id-keeps parent request execution_id delegation_id c used =
      let ids = delegated_ids factory settings parent.execution_id c in
      let kept =
        put_keeps parent.execution_id execution_id delegation_id ids c.delegation_ids used
          (λ h. h) in
      if_case (λ (x : Result (Unit {0}) × Composer S). Used execution_id delegation_id x.1)
        (contains request.delegation_id ids) kept
        (put_keeps parent.execution_id execution_id delegation_id
          (ids ++ request.delegation_id ∷ []) (put parent.execution_id ids c.delegation_ids) kept
          (λ h.
            rw (contains-append delegation_id ids (request.delegation_id ∷ []))
              (ground (arith, rw (get-put_self parent.execution_id ids c.delegation_ids) at h))))

  claim_id-uses :
      (parent : ExecutionContext) (request : DelegationRequest) (c : Composer S)
      → Used parent.execution_id request.delegation_id
          (claim_id factory settings parent request c).1
  unfolding claim_id
  claim_id-uses parent request c =
      let ids = delegated_ids factory settings parent.execution_id c in
      if_split
        (λ (x : Result (Unit {0}) × Composer S). Used parent.execution_id request.delegation_id x.1)
        (contains request.delegation_id ids)
        (λ taken.
          put_keeps parent.execution_id parent.execution_id request.delegation_id ids
            c.delegation_ids taken (λ h. h))
        (λ free. put_lists parent.execution_id request.delegation_id ids _)

  name_child-keeps :
      (c : Composer S) → (name_child factory settings c).1.delegation_ids ≡ c.delegation_ids
  unfolding name_child
  name_child-keeps c = ground arith

  pub reserve-keeps :
      (parent : ExecutionContext) (request : DelegationRequest)
      (execution_id delegation_id : String) (c : Composer S)
      → Used execution_id delegation_id c
      → Used execution_id delegation_id (reserve factory settings parent request c).1
  unfolding reserve
  reserve-keeps parent request execution_id delegation_id c used =
      let claimed = claim_id factory settings parent request c in
      let kept = claim_id-keeps parent request execution_id delegation_id c used in
      after_case (λ x. Used execution_id delegation_id x.1) claimed.0 _ claimed.1 (λ e. kept)
        (λ u h. rw (name_child-keeps claimed.1) kept)

  -- A reservation either is refused or uses the delegation ID, which was not used before.
  abbrev pub Reserves :
      ExecutionContext
      → DelegationRequest
      → Composer S
      → Result (String × String) × Composer S
      → Type 0
  Reserves parent request c (err e, after_it) = Unit
  Reserves parent request c (ok ids, after_it) =
      (contains request.delegation_id (delegated_ids factory settings parent.execution_id c)
        ≡ false)
      × Used parent.execution_id request.delegation_id after_it

  claim_id-fresh :
      (parent : ExecutionContext) (request : DelegationRequest) (u : Unit {0}) (c : Composer S)
      → (claim_id factory settings parent request c).0 ≡ ok u
      → contains request.delegation_id (delegated_ids factory settings parent.execution_id c)
        ≡ false
  unfolding claim_id
  claim_id-fresh parent request u c h = ground (arith, h)

  pub reserve-Reserves :
      (parent : ExecutionContext) (request : DelegationRequest) (c : Composer S)
      → Reserves parent request c (reserve factory settings parent request c)
  unfolding reserve
  reserve-Reserves parent request c =
      let claimed = claim_id factory settings parent request c in
      after_case (Reserves parent request c) claimed.0 _ claimed.1 (λ e. tt)
        (λ u h.
          named (name_child factory settings claimed.1) (claim_id-fresh parent request u c h)
            (rw (name_child-keeps claimed.1) (claim_id-uses parent request c)))
    where
      named :
          (x : Result (String × String) × Composer S)
          → contains request.delegation_id (delegated_ids factory settings parent.execution_id c)
            ≡ false
          → Used parent.execution_id request.delegation_id x.1
          → Reserves parent request c x
      named (err e, d) fresh used = tt
      named (ok ids, d) fresh used = (fresh, used)
