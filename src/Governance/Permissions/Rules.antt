-- ===== src/Governance/Permissions/Rules.antt =====
-- governance/permissions.py: the configuration of `DeclarativePolicyEngine`, one proposed call, and
-- `_rule_matches`. The arguments of a call are any type: only the hooks and the digest read them.
-- A resource hook is the application's: it decides, answers a truth value, or raises.
use enterprise_agent_harness.Prelude.{
  String, Bool, true, false, ◌&&◌, not, Option, none, some, List, nonempty, contains, subset,
  string_eq, if◌then◌else◌,
}
use enterprise_agent_harness.Dict.{Dict}
pub use enterprise_agent_harness.Tools.Definitions.{ToolDefinition}
use enterprise_agent_harness.Contracts.{
  RiskLevel, PrincipalContext, ExecutionContext, ResourceContext, PolicyRule, PolicyDefinition,
  PolicyDecision, risk_eq,
}

-- The keyword arguments of `evaluate`.
pub record Proposal (Args : Type 0) : Type 0 where
  pub principal : PrincipalContext
  pub execution : ExecutionContext
  pub tool : ToolDefinition
  pub arguments : Args
  pub resource : Option ResourceContext

pub data HookEnd : Type 0 where
  decided : PolicyDecision → HookEnd
  answered : Bool → HookEnd
  raised : HookEnd

pub record EnvironmentConstraint : Type 0 where
  pub allowed_tool_ids : Option (List String)
  pub max_risk_level : RiskLevel

abbrev pub Allowlists : Type 0
Allowlists = Dict String (List String)

pub record Engine (Args : Type 0) : Type 0 where
  pub policies : List PolicyDefinition
  pub principal_tool_permissions : Option Allowlists
  pub principal_permissions : Option Allowlists
  pub agent_tool_allowlists : Option Allowlists
  pub environment_constraints : Dict String EnvironmentConstraint
  pub environment_tool_allowlists : Option Allowlists
  pub max_risk_by_environment : Dict String RiskLevel
  pub resource_policy_hooks : List (Proposal Args → HookEnd)
  pub id_factory : String → String

-- `values and value not in values`
abbrev pub lists_without : List String → String → Bool
lists_without values value = nonempty values && not (contains value values)

abbrev pub lists_without_type : List String → Option ResourceContext → Bool
lists_without_type values none = nonempty values
lists_without_type values (some r) = lists_without values r.resource_type

-- A resource with no ID is in no list of IDs.
abbrev pub lists_without_id : List String → Option ResourceContext → Bool
lists_without_id values none = nonempty values
lists_without_id values (some r) = elim r.resource_id [
  | none ↦ nonempty values
  | some i ↦ lists_without values i
]

-- `rule.requires_approval is False`
abbrev pub is_false : Option Bool → Bool
is_false (some false) = true
is_false _ = false

-- `_rule_matches`
unfoldable pub rule_matches : {Args : Type 0} → PolicyRule → Proposal Args → Bool
rule_matches rule p =
    if lists_without rule.tool_ids p.tool.tool_id
    then false
    else if lists_without rule.agent_ids p.execution.agent_id
    then false
    else if lists_without rule.principal_ids p.principal.principal_id
    then false
    else if lists_without rule.tenant_ids p.principal.tenant_id
    then false
    else if nonempty rule.required_permissions
        && not (subset rule.required_permissions p.execution.granted_permissions)
    then false
    else if lists_without rule.environments p.execution.environment
    then false
    else if nonempty rule.risk_levels && not (contains p.tool.risk_level rule.risk_levels)
    then false
    else if lists_without_type rule.resource_types p.resource
    then false
    else if lists_without_id rule.resource_ids p.resource
    then false
    else not (is_false rule.requires_approval && p.tool.requires_approval)
