-- ===== src/Governance/Permissions/Grants.antt =====
-- What the trusted execution context and the engine's own mappings grant, said without the order of
-- the guards of `evaluate`.
use enterprise_agent_harness.Prelude.{
  String, ◌≡◌, refl, Bool, true, false, ◌&&◌, not, if◌then◌else◌, Option, none, some, List, [], ◌∷◌,
  nonempty, contains, subset, leb, is_some, or_else, string_eq, arith,
}
use enterprise_agent_harness.Dict.{get}
use enterprise_agent_harness.Contracts.{RiskLevel, is_active, risk_order}
use enterprise_agent_harness.Governance.Permissions.Rules.{
  ToolDefinition, Proposal, EnvironmentConstraint, Allowlists, Engine, lists_without,
}
use enterprise_agent_harness.Governance.Permissions.Authority.{
  same_principal, not_listed, mapping_denies, permissions_missing, principal_permission_denies,
  excluded, risk_over, environment_lists, constrained, environment_failure, limit_failure,
  environment_then_limits, authority_failure,
}

-- A mapping that is not configured grants every tool; another, those it lists under the name.
abbrev pub grants : Option Allowlists → String → String → Bool
grants none name tool_id = true
grants (some mapping) name tool_id = contains tool_id (or_else (get name mapping) [])

abbrev pub empowers : Option Allowlists → String → List String → Bool
empowers none name permissions = true
empowers (some mapping) name permissions = subset permissions (or_else (get name mapping) [])

-- An empty list of environments stands for all of them.
abbrev pub admits : List String → String → Bool
admits [] environment = true
admits (e ∷ es) environment = contains environment (e ∷ es)

abbrev pub tolerates : Option RiskLevel → RiskLevel → Bool
tolerates none risk = true
tolerates (some limit) risk = leb (risk_order risk) (risk_order limit)

abbrev pub includes : Option (List String) → String → Bool
includes none tool_id = true
includes (some tool_ids) tool_id = contains tool_id tool_ids

-- The constraint of the environment; when others have one, an environment without is refused.
abbrev pub allows_in : Option EnvironmentConstraint → Bool → ToolDefinition → Bool
allows_in none configured tool = not configured
allows_in (some c) configured tool =
    includes c.allowed_tool_ids tool.tool_id && tolerates (some c.max_risk_level) tool.risk_level

module _ {Args : Type 0} (engine : Engine Args) where
  abbrev pub constraint_allows : Proposal Args → Bool
  constraint_allows p =
      allows_in (get p.execution.environment engine.environment_constraints)
        (nonempty engine.environment_constraints) p.tool

  abbrev pub environment_allows : Proposal Args → Bool
  environment_allows p =
      constraint_allows p
      && grants engine.environment_tool_allowlists p.execution.environment p.tool.tool_id
      && tolerates (get p.execution.environment engine.max_risk_by_environment) p.tool.risk_level

  abbrev pub limits_allow : Proposal Args → Bool
  limits_allow p =
      tolerates (some p.execution.max_risk_level) p.tool.risk_level
      && subset p.tool.required_permissions p.execution.granted_permissions

  abbrev pub within_authority : Proposal Args → Bool
  within_authority p =
      same_principal p.execution.principal p.principal
      && (is_active p.tool.lifecycle
          && (contains p.tool.tool_id p.execution.authorized_tool_ids
              && (admits p.tool.allowed_environments p.execution.environment
                  && (grants engine.principal_tool_permissions p.principal.principal_id
                        p.tool.tool_id
                      && (grants engine.agent_tool_allowlists p.execution.agent_id p.tool.tool_id
                          && (empowers engine.principal_permissions p.principal.principal_id
                                p.tool.required_permissions
                              && (environment_allows p && limits_allow p)))))))

not_listed_lem :
    (ids : Option (List String)) (tool_id : String)
    → not_listed ids tool_id ≡ not (contains tool_id (or_else ids []))
not_listed_lem none tool_id = refl
not_listed_lem (some ids) tool_id = refl

mapping_denies_lem :
    (mapping : Option Allowlists) (name tool_id : String)
    → mapping_denies mapping name tool_id ≡ not (grants mapping name tool_id)
mapping_denies_lem none name tool_id = refl
mapping_denies_lem (some mapping) name tool_id = not_listed_lem (get name mapping) tool_id

permissions_missing_lem :
    (granted : Option (List String)) (required : List String)
    → permissions_missing granted required ≡ not (subset required (or_else granted []))
permissions_missing_lem none [] = refl
permissions_missing_lem none (permission ∷ required) = refl
permissions_missing_lem (some granted) required = refl

lists_without_lem :
    (environments : List String) (environment : String)
    → lists_without environments environment ≡ not (admits environments environment)
lists_without_lem [] environment = refl
lists_without_lem (e ∷ es) environment = refl

risk_over_lem :
    (limit : Option RiskLevel) (risk : RiskLevel)
    → risk_over limit risk ≡ not (tolerates limit risk)
risk_over_lem none risk = refl
risk_over_lem (some limit) risk = ground arith

excluded_lem :
    (ids : Option (List String)) (tool_id : String)
    → excluded ids tool_id ≡ not (includes ids tool_id)
excluded_lem none tool_id = refl
excluded_lem (some ids) tool_id = refl

-- One guard before others.
guard :
    (granted denies rest : Bool) (reason : String) (others : Option String)
    → denies ≡ not granted
    → is_some others ≡ not rest
    → is_some (if denies then some reason else others) ≡ not (granted && rest)
guard true denies rest reason others h k = rw h k
guard false denies rest reason others h k = rw h refl

module _ {Args : Type 0} (engine : Engine Args) where
  principal_permission_denies_lem :
      (mapping : Option Allowlists) (p : Proposal Args)
      → principal_permission_denies mapping p.principal p.tool
        ≡ not (empowers mapping p.principal.principal_id p.tool.required_permissions)
  principal_permission_denies_lem none p = refl
  principal_permission_denies_lem (some mapping) p =
      permissions_missing_lem (get p.principal.principal_id mapping) p.tool.required_permissions

  environment_lists_lem :
      (p : Proposal Args)
      → is_some (environment_lists engine p.execution p.tool)
        ≡ not (
            grants engine.environment_tool_allowlists p.execution.environment p.tool.tool_id
            && tolerates
                (get p.execution.environment engine.max_risk_by_environment)
                p.tool.risk_level)
  unfolding environment_lists
  environment_lists_lem p = ground (
    arith,
    mapping_denies_lem engine.environment_tool_allowlists p.execution.environment p.tool.tool_id,
    risk_over_lem (get p.execution.environment engine.max_risk_by_environment) p.tool.risk_level,
  )

  constrained_lem :
      (constraint : Option EnvironmentConstraint) (p : Proposal Args)
      → is_some (constrained engine constraint p.execution p.tool)
        ≡ not (
            allows_in constraint (nonempty engine.environment_constraints) p.tool
            && not (is_some (environment_lists engine p.execution p.tool)))
  unfolding constrained
  constrained_lem none p = ground arith
  constrained_lem (some c) p = ground (
    arith,
    excluded_lem c.allowed_tool_ids p.tool.tool_id,
    risk_over_lem (some c.max_risk_level) p.tool.risk_level,
  )

  environment_failure_lem :
      (p : Proposal Args)
      → is_some (environment_failure engine p.execution p.tool) ≡ not (environment_allows engine p)
  unfolding environment_failure
  environment_failure_lem p = ground (
    arith,
    environment_lists_lem p,
    constrained_lem (get p.execution.environment engine.environment_constraints) p,
  )

  limit_failure_lem :
      (p : Proposal Args) → is_some (limit_failure p.execution p.tool) ≡ not (limits_allow engine p)
  unfolding limit_failure
  limit_failure_lem p =
      ground (arith, risk_over_lem (some p.execution.max_risk_level) p.tool.risk_level)

  environment_then_lem :
      (failure : Option String) (p : Proposal Args)
      → is_some (environment_then_limits failure p.execution p.tool)
        ≡ not (not (is_some failure) && limits_allow engine p)
  unfolding environment_then_limits
  environment_then_lem none p = limit_failure_lem p
  environment_then_lem (some reason) p = refl

  environment_lem :
      (p : Proposal Args)
      → is_some (
          environment_then_limits
            (environment_failure engine p.execution p.tool)
            p.execution
            p.tool)
        ≡ not (environment_allows engine p && limits_allow engine p)
  environment_lem p = ground (
    arith,
    environment_then_lem (environment_failure engine p.execution p.tool) p,
    environment_failure_lem p,
  )

  -- The guards refuse a call exactly when something is not granted.
  pub authority_failure_lem :
      (p : Proposal Args) → is_some (authority_failure engine p) ≡ not (within_authority engine p)
  unfolding authority_failure
  authority_failure_lem p = guard (same_principal p.execution.principal p.principal) _ _ _ _ refl (
      guard (is_active p.tool.lifecycle) _ _ _ _ refl (
        guard (contains p.tool.tool_id p.execution.authorized_tool_ids) _ _ _ _ refl (
          guard _ _ _ _ _ (lists_without_lem p.tool.allowed_environments p.execution.environment) (
            guard _ _ _ _ _ (mapping_denies_lem engine.principal_tool_permissions _ p.tool.tool_id)
              (guard _ _ _ _ _ (mapping_denies_lem engine.agent_tool_allowlists _ p.tool.tool_id) (
                guard _ _ _ _ _ (principal_permission_denies_lem engine.principal_permissions p)
                  (environment_lem p)))))))
