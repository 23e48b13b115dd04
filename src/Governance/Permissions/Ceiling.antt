-- ===== src/Governance/Permissions/Ceiling.antt =====
-- The trusted execution context is a ceiling: no policy, mapping or hook can allow what it does not
-- carry.
use enterprise_agent_harness.Prelude.{
  String, ◌≡◌, ◌≤◌, refl, ◌⊎◌, Bool, true, false, ◌&&◌, Option, none, some, List, contains, subset,
  string_eq, eq_iff, arith, leb,
}
use enterprise_agent_harness.Dict.{get}
use enterprise_agent_harness.Method.{Result, ok, err, after, pure}
use enterprise_agent_harness.Contracts.{
  PrincipalContext, PolicyDecision, PermissionDecision, AgentLifecycleStatus, is_active, risk_order,
}
use enterprise_agent_harness.Governance.Permissions.Rules.{ToolDefinition, Proposal, Engine}
use enterprise_agent_harness.Governance.Permissions.Authority.{same_principal, authority_failure}
use enterprise_agent_harness.Governance.Permissions.Grants.{
  admits, grants, empowers, tolerates, constraint_allows, environment_allows, within_authority,
  authority_failure_lem,
}
use enterprise_agent_harness.Governance.Permissions.Evaluate.{finish, after_authority, evaluate}
use enterprise_agent_harness.Governance.Permissions.Broker.{judge, authorize, is_approved}

-- What the trusted context and the engine's own mappings grant.
pub record WithinAuthority {Args : Type 0} (engine : Engine Args) (p : Proposal Args) : Type 0 where
  pub principal : p.execution.principal ≡ p.principal
  pub active : p.tool.lifecycle ≡ AgentLifecycleStatus.active
  pub authorized : contains p.tool.tool_id p.execution.authorized_tool_ids ≡ true
  pub environment : admits p.tool.allowed_environments p.execution.environment ≡ true
  pub for_principal :
      grants engine.principal_tool_permissions p.principal.principal_id p.tool.tool_id ≡ true
  pub for_agent : grants engine.agent_tool_allowlists p.execution.agent_id p.tool.tool_id ≡ true
  pub empowered :
      empowers engine.principal_permissions p.principal.principal_id p.tool.required_permissions
      ≡ true
  pub constraint : constraint_allows engine p ≡ true
  pub in_environment :
      grants engine.environment_tool_allowlists p.execution.environment p.tool.tool_id ≡ true
  pub environment_risk :
      tolerates (get p.execution.environment engine.max_risk_by_environment) p.tool.risk_level
      ≡ true
  pub risk : risk_order p.tool.risk_level ≤ risk_order p.execution.max_risk_level
  pub permissions : subset p.tool.required_permissions p.execution.granted_permissions ≡ true

lifecycle_active : (l : AgentLifecycleStatus) → is_active l ≡ true → l ≡ AgentLifecycleStatus.active
lifecycle_active AgentLifecycleStatus.active h = refl
lifecycle_active _ h = cc

same_principal-eq : (a b : PrincipalContext) → same_principal a b ≡ true → a ≡ b
same_principal-eq a b h = ground (
  arith,
  eq_iff a.principal_id b.principal_id,
  eq_iff a.tenant_id b.tenant_id,
  eq_iff a.session_id b.session_id,
)

both : (a b : Bool) → a && b ≡ true → (a ≡ true) × (b ≡ true)
both a b h = ground arith

module _ {Args : Type 0} (engine : Engine Args) where
  within_authority-WithinAuthority :
      (p : Proposal Args) → within_authority engine p ≡ true → WithinAuthority engine p
  within_authority-WithinAuthority p h =
      let (principal, more) = both (same_principal p.execution.principal p.principal) _ h in
      let (active, more) = both _ _ more in
      let (authorized, more) = both _ _ more in
      let (environment, more) = both _ _ more in
      let (for_principal, more) = both _ _ more in
      let (for_agent, more) = both _ _ more in
      let (empowered, more) = both _ _ more in
      let (around, limits) = both (environment_allows engine p) _ more in
      let (there, environment_risk) = both (constraint_allows engine p && _) _ around in
      let (constraint, in_environment) = both (constraint_allows engine p) _ there in
      let (risk, permissions) =
        both (leb (risk_order p.tool.risk_level) (risk_order p.execution.max_risk_level)) _
          limits in
      record {
        principal = same_principal-eq _ _ principal;
        active = lifecycle_active _ active;
        authorized = authorized;
        environment = environment;
        for_principal = for_principal;
        for_agent = for_agent;
        empowered = empowered;
        constraint = constraint;
        in_environment = in_environment;
        environment_risk = environment_risk;
        risk = ground (arith);
        permissions = permissions;
      }

  authority_holds :
      (p : Proposal Args) → authority_failure engine p ≡ none → WithinAuthority engine p
  authority_holds p h =
      within_authority-WithinAuthority p
        (let exact = authority_failure_lem engine p in ground arith)

  after_authority_allows :
      (i : String) (p : Proposal Args) (failure : Option String) (log : List PolicyDecision)
      {d : PolicyDecision}
      → (after_authority engine i p failure log).0 ≡ ok d
      → d.allowed ≡ true
      → failure ≡ none
  unfolding after_authority finish
  after_authority_allows i p none log h a = refl
  after_authority_allows i p (some reason) log h a = absurd (ground arith)

  -- When `evaluate` allows a call, the call is within the authority of the trusted execution
  -- context and of the engine's mappings, whatever the policies and the hooks say.
  pub evaluate-WithinAuthority :
      (p : Proposal Args) (log : List PolicyDecision) {d : PolicyDecision}
      → (evaluate engine p log).0 ≡ ok d
      → d.allowed ≡ true
      → WithinAuthority engine p
  unfolding evaluate
  evaluate-WithinAuthority p log h a = authority_holds p (after_authority_allows _ p _ log h a)

  module _ (action_digest : ToolDefinition → Args → String) where
    -- When the broker allows a call, the policy decision allows it too.
    judge_allows :
        (p : Proposal Args) (d : PolicyDecision)
        → (judge action_digest p d).allowed ≡ true
        → (d.allowed ≡ true)
          × ((d.approval_required ≡ false) ⊎ (is_approved action_digest p ≡ true))
    unfolding judge
    judge_allows p d h = ground arith

    pub authorize_policy :
        (p : Proposal Args) (evaluated : Result PolicyDecision) (log : List PolicyDecision)
        {g : PermissionDecision}
        → (after evaluated (λ d. pure (judge action_digest p d)) log).0 ≡ ok g
        → g.allowed ≡ true
        → (d : PolicyDecision) × (evaluated ≡ ok d)
          × (d.allowed ≡ true)
          × ((d.approval_required ≡ false) ⊎ (is_approved action_digest p ≡ true))
    authorize_policy p (ok d) log {g} h a =
        let allows = judge_allows p d (ground (arith)) in (d, refl, allows.0, allows.1)
    authorize_policy p (err e) log h a = cc

    -- When the broker allows a call, the principal of the trusted execution context is the caller;
    -- the tool is active and allowed in the environment; the execution context and each mapping of
    -- tools that the engine is given, by principal, by agent and by environment, list it; its
    -- permissions are granted by the context and, when mapped, to the principal; the constraint of
    -- the environment allows it; and its risk is within the limits of context and environment.
    pub authorize-WithinAuthority :
        (p : Proposal Args) (log : List PolicyDecision) {g : PermissionDecision}
        → (authorize action_digest engine p log).0 ≡ ok g
        → g.allowed ≡ true
        → WithinAuthority engine p
    unfolding authorize
    authorize-WithinAuthority p log h a =
        let (d, e, allowed, _) = authorize_policy p _ _ h a in
        evaluate-WithinAuthority p log e allowed
