-- ===== src/Composition/Chains.antt =====
-- Delegation from one execution to the next, as a relation: how long a chain can become.
use enterprise_agent_harness.Prelude.{ℕ, ◌+◌, ◌≤◌, ◌≡◌, arith}
use enterprise_agent_harness.Method.{ok}
use enterprise_agent_harness.Contracts.{ExecutionContext}
use enterprise_agent_harness.Composition.Contracts.{DelegationRequest, DelegationResult}
use enterprise_agent_harness.Composition.Delegate.{Factory, Settings, Composer, delegate}
use enterprise_agent_harness.Composition.Authority.{delegate-WithinParent}

module _ {S : Type 0} (factory : Factory S) (settings : Settings) where
  -- The executions that a root execution leads to, by the number of delegations. The execution
  -- of a child has the depth of the context that it is started with.
  pub data Chain : ℕ → ExecutionContext → Type 0 where
    root : (e : ExecutionContext) → e.delegation_depth ≡ 0 → Chain 0 e
    child :
        {n : ℕ} {parent : ExecutionContext}
        → Chain n parent
        → (request : DelegationRequest) (c : Composer S) (result : DelegationResult)
        → (delegate factory settings parent request c).0 ≡ ok result
        → (e : ExecutionContext) → e.delegation_depth ≡ result.context.delegation_depth
        → Chain (n + 1) e

  -- The depth of an execution counts the delegations that led to it, and there are never more of
  -- them than the composer allows: every chain of delegations ends.
  pub Chain-bounded :
      (n : ℕ) (e : ExecutionContext)
      → Chain n e
      → (e.delegation_depth ≡ n) × (n ≤ settings.max_delegation_depth)
  Chain-bounded n e (root leaf at) = (at, omega arith)
  Chain-bounded n e (child {n = m} {parent = parent} chain request c result h leaf same) =
      let (depth, bounded) = Chain-bounded m parent chain in
      let within = delegate-WithinParent factory settings parent request c result h in
      (omega (arith, within.5, same, depth), omega (arith, within.5, within.6, same, depth))
