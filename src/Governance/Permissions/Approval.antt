-- ===== src/Governance/Permissions/Approval.antt =====
-- A call that needs approval passes only with the digest of its exact arguments.
use enterprise_agent_harness.Prelude.{String, ◌≡◌, true, Option, none, some, List, arith}
use enterprise_agent_harness.Method.{Result, ok, err}
use enterprise_agent_harness.Contracts.{PolicyDecision, PermissionDecision}
use enterprise_agent_harness.Governance.Permissions.Rules.{ToolDefinition, Proposal, Engine}
use enterprise_agent_harness.Governance.Permissions.Evaluate.{
  finish, evaluate_hooks, combine, after_definitions, after_authority, evaluate,
}
use enterprise_agent_harness.Governance.Permissions.Broker.{is_approved, authorize}
use enterprise_agent_harness.Governance.Permissions.Ceiling.{authorize_policy}

module _ {Args : Type 0} (engine : Engine Args) where
  combine_requires :
      (d : PolicyDecision) (hooks : Option PolicyDecision) (p : Proposal Args)
      → p.tool.requires_approval ≡ true
      → (combine d hooks p).allowed ≡ true
      → (combine d hooks p).approval_required ≡ true
  unfolding combine
  combine_requires d none p r a = ground arith
  combine_requires d (some h) p r a = ground arith

  after_definitions_requires :
      (i : String) (p : Proposal Args) (e : Result PolicyDecision) (log : List PolicyDecision)
      {d : PolicyDecision}
      → p.tool.requires_approval ≡ true
      → (after_definitions engine i p e log).0 ≡ ok d
      → d.allowed ≡ true
      → d.approval_required ≡ true
  unfolding after_definitions finish
  after_definitions_requires i p (err e) log r h a = cc
  after_definitions_requires i p (ok d) log r h a =
      ground (arith, combine_requires d (evaluate_hooks i none engine.resource_policy_hooks p) p r)

  after_authority_requires :
      (i : String) (p : Proposal Args) (failure : Option String) (log : List PolicyDecision)
      {d : PolicyDecision}
      → p.tool.requires_approval ≡ true
      → (after_authority engine i p failure log).0 ≡ ok d
      → d.allowed ≡ true
      → d.approval_required ≡ true
  unfolding after_authority finish
  after_authority_requires i p none log r h a = after_definitions_requires i p _ log r h a
  after_authority_requires i p (some reason) log r h a = absurd (ground arith)

  evaluate_requires :
      (p : Proposal Args) (log : List PolicyDecision) {d : PolicyDecision}
      → p.tool.requires_approval ≡ true
      → (evaluate engine p log).0 ≡ ok d
      → d.allowed ≡ true
      → d.approval_required ≡ true
  unfolding evaluate
  evaluate_requires p log r h a = after_authority_requires _ p _ log r h a

  -- When the broker allows a call of a tool that requires approval, the digest of the tool with
  -- the exact arguments of the call is among the approved ones, whatever the policies and the
  -- hooks say.
  pub authorize_needs_approval :
      (action_digest : ToolDefinition → Args → String) (p : Proposal Args)
      (log : List PolicyDecision) {g : PermissionDecision}
      → p.tool.requires_approval ≡ true
      → (authorize action_digest engine p log).0 ≡ ok g
      → g.allowed ≡ true
      → is_approved action_digest p ≡ true
  unfolding authorize
  authorize_needs_approval action_digest p log r h a =
      let (d, e, allowed, approval) =
        authorize_policy engine action_digest p (evaluate engine p log).0 (evaluate engine p log).1
          h a in
      ground (arith, evaluate_requires p log r e allowed)
