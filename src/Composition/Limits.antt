-- ===== src/Composition/Limits.antt =====
-- composition.py: what `AgentComposer.delegate` computes before it writes anything: the checks of a
-- request, and the ceilings of the child.
use Prim.Native.Char.{code}
use Prim.Native.String.{◌++◌ as append}
use enterprise_agent_harness.Prelude.{
  ℕ, String, Bool, false, ◌&&◌, ◌||◌, not, Option, none, some, List, [], ◌∷◌, ◌++◌, keep, map,
  contains, subset, nonempty, blank, leb, ◌==◌, nat_eq, string_eq, or_else, if◌then◌else◌,
}
use enterprise_agent_harness.Method.{Result, ok, err, Error, delegation_error, delegation_authority}
use enterprise_agent_harness.Contracts.{RiskLevel, risk_exceeds, ExecutionContext}
use enterprise_agent_harness.Outcomes.{sorted_set}
use enterprise_agent_harness.Composition.Contracts.{DelegationRequest, BuiltAgent}

-- `reference.split("@", 1)[0]`
unfoldable pub split_at : String → String
split_at String.[] = String.[]
split_at (String.◌∷◌ c s) =
    let rest = split_at s in if code c == 64 then String.[] else String.◌∷◌ c rest

abbrev pub identity : String → String → String
identity id version = append id (append "@" version)

-- `_validate_parent_request`
abbrev pub exceeds_parent : Option RiskLevel → RiskLevel → Bool
exceeds_parent none maximum = false
exceeds_parent (some requested) maximum = risk_exceeds requested maximum

unfoldable pub request_error : ExecutionContext → DelegationRequest → Option Error
request_error parent request =
    if not (request.parent_execution_id == parent.execution_id)
    then some delegation_authority
    else if not (request.parent_agent_id == parent.agent_id)
        || not (request.parent_agent_version == parent.agent_version)
    then some delegation_authority
    else if blank request.input_text
    then some delegation_error
    else if nonempty request.requested_permissions
        && not (subset request.requested_permissions parent.granted_permissions)
    then some delegation_authority
    else if exceeds_parent request.max_risk_level parent.max_risk_level
    then some delegation_authority
    else none

-- The path of the parent, with the parent on it.
abbrev pub path_with : String → List String → List String
path_with parent_identity [] = parent_identity ∷ []
path_with parent_identity (i ∷ path) =
    if not (contains parent_identity (i ∷ path))
    then (i ∷ path) ++ parent_identity ∷ []
    else i ∷ path

abbrev pub parent_path : ExecutionContext → List String
parent_path parent =
    path_with (identity parent.agent_id parent.agent_version) parent.delegation_path

-- `_tool_ceiling`: the IDs that the child may use.
abbrev pub child_ids : BuiltAgent → List String
child_ids child = map split_at child.trusted_allowed_tool_versions

abbrev pub selected_ids : ExecutionContext → BuiltAgent → DelegationRequest → List String
selected_ids parent child request =
    if nonempty request.requested_tool_ids
    then request.requested_tool_ids
    else keep (λ id. contains id parent.authorized_tool_ids) (child_ids child)

abbrev pub exact_versions : ExecutionContext → BuiltAgent → DelegationRequest → List String
exact_versions parent child request = sorted_set (
    keep
      (λ reference.
        contains (split_at reference) (selected_ids parent child request)
        && contains reference parent.authorized_tool_versions)
      child.trusted_allowed_tool_versions)

unfoldable pub tool_ceiling :
    ExecutionContext → BuiltAgent → DelegationRequest → Result (List String × List String)
tool_ceiling parent child request =
    let selected = selected_ids parent child request in
    let versions = exact_versions parent child request in
    if not (subset request.requested_tool_ids (child_ids child))
    then err delegation_authority
    else if not (subset request.requested_tool_ids parent.authorized_tool_ids)
    then err delegation_authority
    else if nonempty selected && not (nonempty parent.authorized_tool_versions)
    then err delegation_authority
    else if nonempty selected && not (nonempty versions)
    then err delegation_authority
    else ok (sorted_set (map split_at versions), versions)

-- `_permission_ceiling`
abbrev pub permission_ceiling : ExecutionContext → DelegationRequest → List String
permission_ceiling parent request =
    if nonempty request.requested_permissions
    then request.requested_permissions
    else parent.granted_permissions

-- `_validate_tool_permissions`
abbrev pub required_permissions : List (String × List String) → List String → List String
required_permissions [] versions = []
required_permissions ((reference, permissions) ∷ tools) versions =
    let rest = required_permissions tools versions in
    if contains reference versions then permissions ++ rest else rest

-- `_risk_ceiling`: `min` takes the first of the least.
abbrev pub min_risk : RiskLevel → RiskLevel → RiskLevel
min_risk a b = if risk_exceeds a b then b else a

unfoldable pub risk_ceiling : ExecutionContext → BuiltAgent → DelegationRequest → Result RiskLevel
risk_ceiling parent child request =
    let requested = or_else request.max_risk_level child.trusted_risk_level in
    if risk_exceeds child.trusted_risk_level parent.max_risk_level
    then err delegation_authority
    else if risk_exceeds requested parent.max_risk_level
    then err delegation_authority
    else ok (min_risk (min_risk child.trusted_risk_level requested) parent.max_risk_level)

-- What `delegate` computes before it writes anything.
pub record Ceiling : Type 0 where
  pub child : BuiltAgent
  pub tool_ids : List String
  pub tool_versions : List String
  pub permissions : List String
  pub risk_level : RiskLevel
  pub max_steps : ℕ
  pub path : List String

abbrev pub ceiling_risk :
    ExecutionContext
    → DelegationRequest
    → BuiltAgent
    → List String
    → List String × List String
    → Result RiskLevel
    → Result Ceiling
ceiling_risk parent request child path tools (err e) = err e
ceiling_risk parent request child path (tool_ids, tool_versions) (ok risk) = ok (record {
  child = child;
  tool_ids = tool_ids;
  tool_versions = tool_versions;
  permissions = permission_ceiling parent request;
  risk_level = risk;
  max_steps =
      if leb parent.max_steps child.trusted_max_plan_steps
      then parent.max_steps
      else child.trusted_max_plan_steps;
  path = path;
})

abbrev pub ceiling_tools :
    ExecutionContext
    → DelegationRequest
    → BuiltAgent
    → List String
    → Result (List String × List String)
    → Result Ceiling
ceiling_tools parent request child path (err e) = err e
ceiling_tools parent request child path (ok tools) =
    if not (
      subset (required_permissions child.trusted_tool_permissions tools.1)
        (permission_ceiling parent request))
    then err delegation_authority
    else ceiling_risk parent request child path tools (risk_ceiling parent child request)

unfoldable pub ceiling :
    ExecutionContext → DelegationRequest → List String → Option BuiltAgent → Result Ceiling
ceiling parent request path none = err delegation_authority
ceiling parent request path (some child) =
    ceiling_tools parent request child path (tool_ceiling parent child request)

abbrev pub child_identity : DelegationRequest → String
child_identity request = identity request.child_agent_id request.child_agent_version

abbrev pub unless_error : Option Error → Result Ceiling → Result Ceiling
unless_error none r = r
unless_error (some e) r = err e
