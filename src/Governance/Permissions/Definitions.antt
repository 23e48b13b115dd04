-- ===== src/Governance/Permissions/Definitions.antt =====
-- governance/permissions.py: `_decision_context` and `_evaluate_definitions`, on all policies. The
-- validator of `PolicyDecision` refuses a decision whose matched rule IDs repeat.
use Prim.Native.String.{◌++◌ as append}
use enterprise_agent_harness.Prelude.{
  unique, String, Bool, true, false, ◌||◌, not, Option, none, some, List, [], ◌∷◌, ◌++◌, map, keep,
  string_eq, if◌then◌else◌,
}
use enterprise_agent_harness.Method.{Result, ok, err, value_error, index_error}
use enterprise_agent_harness.Contracts.{
  PolicyRule, PolicyDefinition, PolicyDecision, PolicyEffect, is_active,
}
use enterprise_agent_harness.Governance.Permissions.Rules.{Proposal, rule_matches}

abbrev pub is_allow : PolicyEffect → Bool
is_allow PolicyEffect.allow = true
is_allow PolicyEffect.deny = false

-- `rule.requires_approval is True`
abbrev pub is_true : Option Bool → Bool
is_true (some true) = true
is_true _ = false

abbrev pub Entry : Type 0
Entry = PolicyDefinition × PolicyRule

-- The variables of the loop over the policies.
pub record Tally : Type 0 where
  pub matching_allow : List Entry
  pub matching_deny : List Entry
  pub matched_ids : List String
  pub approval_required : Bool

-- `target.append((policy, rule))`
abbrev pub file_under : PolicyEffect → Entry → Tally → Tally
file_under PolicyEffect.allow e t = record t { matching_allow = t.matching_allow ++ e ∷ [] }
file_under PolicyEffect.deny e t = record t { matching_deny = t.matching_deny ++ e ∷ [] }

-- The loop over the matched rules of one policy.
unfoldable pub tally_rules : PolicyDefinition → List PolicyRule → Tally → Tally
tally_rules policy [] t = t
tally_rules policy (rule ∷ rules) t = tally_rules policy rules (
    file_under rule.effect (policy, rule)
      (record t { approval_required = t.approval_required || is_true rule.requires_approval }))

-- `_default_rule`
abbrev pub default_rule : PolicyDefinition → PolicyRule
default_rule policy = record {
  rule_id = append "default:" policy.policy_id;
  effect = policy.default_effect;
  tool_ids = [];
  agent_ids = [];
  principal_ids = [];
  tenant_ids = [];
  required_permissions = [];
  environments = [];
  risk_levels = [];
  resource_types = [];
  resource_ids = [];
  requires_approval = none;
}

abbrev pub matched_id : PolicyDefinition → PolicyRule → String
matched_id policy rule = append policy.policy_id (append ":" rule.rule_id)

unfoldable pub tally_matched : PolicyDefinition → List PolicyRule → Tally → Tally
tally_matched policy [] t = file_under policy.default_effect (policy, default_rule policy) t
tally_matched policy (rule ∷ rules) t =
    tally_rules policy (rule ∷ rules)
      (record t { matched_ids = t.matched_ids ++ map (matched_id policy) (rule ∷ rules) })

abbrev pub validated : PolicyDecision → Result PolicyDecision
validated d = if unique d.matched_rule_ids then ok d else err value_error

abbrev pub entry_decision : PolicyDecision → Entry → Tally → Result PolicyDecision
entry_decision d (policy, rule) t = validated (record d {
  policy_id = some policy.policy_id;
  policy_version = some policy.version;
  rule_id = some rule.rule_id;
  matched_rule_ids = t.matched_ids;
  approval_required = t.approval_required;
})

-- `[policy for policy in self.policies if policy.lifecycle.value not in {"active"}]`
abbrev pub inactive : List PolicyDefinition → List PolicyDefinition
inactive policies = keep (λ policy. not (is_active policy.lifecycle)) policies

module _ {Args : Type 0} where
  -- The rules of a policy that match.
  abbrev pub matched : Proposal Args → PolicyDefinition → List PolicyRule
  matched p policy = keep (λ rule. rule_matches rule p) policy.rules

  unfoldable pub tally_policies : Proposal Args → List PolicyDefinition → Tally → Tally
  tally_policies p [] t = t
  tally_policies p (policy ∷ policies) t =
      tally_policies p policies (tally_matched policy (matched p policy) t)

  -- `PolicyDecision(**base, allowed=..., reason_code=...)`, the other fields at their defaults.
  abbrev pub decision : String → Proposal Args → Bool → String → PolicyDecision
  decision decision_id p allowed reason_code = record {
    decision_id = decision_id;
    allowed = allowed;
    principal_id = p.principal.principal_id;
    tenant_id = p.principal.tenant_id;
    agent_id = p.execution.agent_id;
    tool_id = p.tool.tool_id;
    environment = p.execution.environment;
    risk_level = p.tool.risk_level;
    reason_code = reason_code;
    policy_id = none;
    policy_version = none;
    rule_id = none;
    matched_rule_ids = [];
    approval_required = false;
    resource_type = elim p.resource [ none ↦ none | some r ↦ some r.resource_type ];
    resource_id = elim p.resource [ none ↦ none | some r ↦ r.resource_id ];
  }

  -- The first denial, or else the first allowance; `matching_allow[0]` of an empty list would
  -- raise, but a policy that denies nothing allows something.
  unfoldable pub decide_tally :
      String → Proposal Args → List Entry → List Entry → Tally → Result PolicyDecision
  decide_tally i p (e ∷ _) allows t = entry_decision (decision i p false "policy_denied") e t
  decide_tally i p [] (e ∷ _) t = entry_decision (decision i p true "allowed_by_policy") e t
  decide_tally i p [] [] t = err index_error

  abbrev pub start : Proposal Args → Tally
  start p = record {
    matching_allow = [];
    matching_deny = [];
    matched_ids = [];
    approval_required = p.tool.requires_approval;
  }

  unfoldable pub decide_active : String → Proposal Args → Tally → Result PolicyDecision
  decide_active i p t = decide_tally i p t.matching_deny t.matching_allow t

  unfoldable pub unless_inactive :
      String → Proposal Args → List PolicyDefinition → List PolicyDefinition → Result PolicyDecision
  unless_inactive i p (policy ∷ _) policies = ok (record (decision i p false "policy_not_active") {
    policy_id = some policy.policy_id;
    policy_version = some policy.version;
  })
  unless_inactive i p [] policies = decide_active i p (tally_policies p policies (start p))

  -- `_evaluate_definitions`
  unfoldable pub evaluate_definitions :
      String → Proposal Args → List PolicyDefinition → Result PolicyDecision
  evaluate_definitions i p [] = ok (record (decision i p true "allowed_by_execution_authority") {
    approval_required = p.tool.requires_approval;
  })
  evaluate_definitions i p (policy ∷ policies) =
      unless_inactive i p (inactive (policy ∷ policies)) (policy ∷ policies)
