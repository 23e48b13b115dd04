-- ===== src/Governance/Permissions/Authority.antt =====
-- governance/permissions.py: the refusals of `evaluate` before any policy is read, in the order
-- of the source, as the reason code of the first that applies.
use enterprise_agent_harness.Prelude.{
  String, Bool, true, false, ◌&&◌, not, Option, none, some, List, nonempty, contains, subset,
  string_eq, ◌==◌, if◌then◌else◌,
}
use enterprise_agent_harness.Dict.{get}
use enterprise_agent_harness.Contracts.{
  PrincipalContext, ExecutionContext, RiskLevel, is_active, risk_exceeds,
}
use enterprise_agent_harness.Governance.Permissions.Rules.{
  ToolDefinition, Proposal, EnvironmentConstraint, Allowlists, Engine, lists_without,
}

-- `execution.principal != principal`
abbrev pub same_principal : PrincipalContext → PrincipalContext → Bool
same_principal a b =
    a.principal_id == b.principal_id && a.tenant_id == b.tenant_id && a.session_id == b.session_id

-- `allowed is None or tool_id not in allowed`
abbrev pub not_listed : Option (List String) → String → Bool
not_listed none tool_id = true
not_listed (some allowed) tool_id = not (contains tool_id allowed)

-- `_mapping_denies`
abbrev pub mapping_denies : Option Allowlists → String → String → Bool
mapping_denies none identity tool_id = false
mapping_denies (some mapping) identity tool_id = not_listed (get identity mapping) tool_id

abbrev pub permissions_missing : Option (List String) → List String → Bool
permissions_missing none required = nonempty required
permissions_missing (some granted) required = not (subset required granted)

-- `_principal_permission_denies`
abbrev pub principal_permission_denies :
    Option Allowlists → PrincipalContext → ToolDefinition → Bool
principal_permission_denies none principal tool = false
principal_permission_denies (some mapping) principal tool =
    permissions_missing (get principal.principal_id mapping) tool.required_permissions

-- `constraint.allowed_tool_ids is not None and tool.tool_id not in constraint.allowed_tool_ids`
abbrev pub excluded : Option (List String) → String → Bool
excluded none tool_id = false
excluded (some allowed) tool_id = not (contains tool_id allowed)

abbrev pub risk_over : Option RiskLevel → RiskLevel → Bool
risk_over none actual = false
risk_over (some maximum) actual = risk_exceeds actual maximum

-- The last two refusals, after the environment.
unfoldable pub limit_failure : ExecutionContext → ToolDefinition → Option String
limit_failure execution tool =
    if risk_exceeds tool.risk_level execution.max_risk_level
    then some "risk_exceeds_execution_limit"
    else if not (subset tool.required_permissions execution.granted_permissions)
    then some "required_permission_missing"
    else none

unfoldable pub environment_then_limits :
    Option String → ExecutionContext → ToolDefinition → Option String
environment_then_limits (some reason) execution tool = some reason
environment_then_limits none execution tool = limit_failure execution tool

module _ {Args : Type 0} (engine : Engine Args) where
  -- The end of `_environment_failure`, after the constraint.
  unfoldable pub environment_lists : ExecutionContext → ToolDefinition → Option String
  environment_lists execution tool =
      if mapping_denies engine.environment_tool_allowlists execution.environment tool.tool_id
      then some "environment_tool_not_allowed"
      else if risk_over (get execution.environment engine.max_risk_by_environment) tool.risk_level
      then some "risk_exceeds_environment_limit"
      else none

  unfoldable pub constrained :
      Option EnvironmentConstraint → ExecutionContext → ToolDefinition → Option String
  constrained none execution tool =
      if nonempty engine.environment_constraints
      then some "environment_not_configured"
      else environment_lists execution tool
  constrained (some constraint) execution tool =
      if excluded constraint.allowed_tool_ids tool.tool_id
      then some "environment_tool_not_allowed"
      else if risk_exceeds tool.risk_level constraint.max_risk_level
      then some "risk_exceeds_environment_limit"
      else environment_lists execution tool

  -- `_environment_failure`
  unfoldable pub environment_failure : ExecutionContext → ToolDefinition → Option String
  environment_failure execution tool =
      constrained (get execution.environment engine.environment_constraints) execution tool

  unfoldable pub authority_failure : Proposal Args → Option String
  authority_failure p =
      if not (same_principal p.execution.principal p.principal)
      then some "principal_context_mismatch"
      else if not (is_active p.tool.lifecycle)
      then some "tool_not_active"
      else if not (contains p.tool.tool_id p.execution.authorized_tool_ids)
      then some "tool_not_in_execution_allowlist"
      else if lists_without p.tool.allowed_environments p.execution.environment
      then some "tool_not_allowed_in_environment"
      else if mapping_denies engine.principal_tool_permissions p.principal.principal_id
          p.tool.tool_id
      then some "principal_tool_not_allowed"
      else if mapping_denies engine.agent_tool_allowlists p.execution.agent_id p.tool.tool_id
      then some "agent_tool_not_allowed"
      else if principal_permission_denies engine.principal_permissions p.principal p.tool
      then some "principal_permission_missing"
      else environment_then_limits (environment_failure p.execution p.tool) p.execution p.tool
