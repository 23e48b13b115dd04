-- ===== src/Governance/Approvals/Policies.antt =====
-- governance/approvals.py: `DeclarativeApprovalPolicyEngine.evaluate`. The seconds of an expiry are
-- a positive double, modelled by its bit pattern, which has the same order; the engine only
-- compares them. Of the action there is its ID.
use enterprise_agent_harness.Prelude.{
  ℕ, ◌+◌, String, Bool, true, false, ◌&&◌, not, Option, none, some, List, [], ◌∷◌, ◌++◌, contains,
  unique, nonempty, leb, string_eq, if◌then◌else◌,
}
use enterprise_agent_harness.Method.{Method, ok, err, value_error}
use enterprise_agent_harness.Contracts.{
  ToolKind, kind_eq, RiskLevel, risk_eq, AgentLifecycleStatus, is_active, ExecutionContext,
}
use enterprise_agent_harness.Tools.Definitions.{ToolDefinition}

pub record ApprovalPolicyRule : Type 0 where
  pub rule_id : String
  pub tool_ids : List String
  pub action_ids : List String
  pub action_kinds : List ToolKind
  pub risk_levels : List RiskLevel
  pub environments : List String
  pub requires_approval : Bool
  pub expiry_seconds : Option ℕ

pub record ApprovalPolicy : Type 0 where
  pub policy_id : String
  pub version : String
  pub default_requires_approval : Bool
  pub default_expiry_seconds : Option ℕ
  pub rules : List ApprovalPolicyRule
  pub lifecycle : AgentLifecycleStatus

pub record ApprovalPolicyDecision : Type 0 where
  pub decision_id : String
  pub required : Bool
  pub reason_code : String
  pub policy_id : Option String
  pub policy_version : Option String
  pub matched_rule_ids : List String
  pub expiry_seconds : Option ℕ

-- The keyword arguments that `evaluate` reads.
pub record PolicyQuestion : Type 0 where
  pub execution : ExecutionContext
  pub tool : ToolDefinition
  pub action_id : String

pub record PolicyEngine : Type 0 where
  pub decisions : List ApprovalPolicyDecision
  pub ids_made : ℕ

-- `_rule_matches`
unfoldable pub approval_rule_matches : PolicyQuestion → ApprovalPolicyRule → Bool
approval_rule_matches q rule =
    if nonempty rule.tool_ids && not (contains q.tool.tool_id rule.tool_ids)
    then false
    else if nonempty rule.action_ids && not (contains q.action_id rule.action_ids)
    then false
    else if nonempty rule.action_kinds && not (contains q.tool.kind rule.action_kinds)
    then false
    else if nonempty rule.risk_levels && not (contains q.tool.risk_level rule.risk_levels)
    then false
    else not
        (nonempty rule.environments && not (contains q.execution.environment rule.environments))

-- The variables of the loop over the rules of one policy.
pub record RuleTally : Type 0 where
  pub policy_required : Bool
  pub policy_rule_ids : List String
  pub policy_expiry_values : List ℕ

abbrev pub with_expiry : Option ℕ → List ℕ → List ℕ
with_expiry none values = values
with_expiry (some seconds) values = values ++ seconds ∷ []

abbrev pub count_rule : PolicyQuestion → ApprovalPolicyRule → RuleTally → RuleTally
count_rule q rule t =
    if not (approval_rule_matches q rule)
    then t
    else if rule.requires_approval
    then record {
      policy_required = true;
      policy_rule_ids = t.policy_rule_ids ++ rule.rule_id ∷ [];
      policy_expiry_values = with_expiry rule.expiry_seconds t.policy_expiry_values;
    }
    else t

unfoldable pub count_rules : PolicyQuestion → List ApprovalPolicyRule → RuleTally → RuleTally
count_rules q [] t = t
count_rules q (rule ∷ rules) t = count_rules q rules (count_rule q rule t)

-- The variables of the loop over the policies.
pub record PolicyTally : Type 0 where
  pub required : Bool
  pub selected_policy : Option ApprovalPolicy
  pub matched_rule_ids : List String
  pub expiry_values : List ℕ

abbrev pub selected_or : Option ApprovalPolicy → ApprovalPolicy → Option ApprovalPolicy
selected_or none policy = some policy
selected_or (some selected) policy = some selected

-- The expiries of the policy's rules, or else the policy's own.
abbrev pub policy_expiries : ApprovalPolicy → List ℕ → List ℕ
policy_expiries policy [] = with_expiry policy.default_expiry_seconds []
policy_expiries policy (seconds ∷ values) = seconds ∷ values

abbrev pub counted : PolicyQuestion → ApprovalPolicy → RuleTally
counted q policy = count_rules q policy.rules (record {
  policy_required = policy.default_requires_approval;
  policy_rule_ids = [];
  policy_expiry_values = [];
})

abbrev pub count_policy : PolicyQuestion → ApprovalPolicy → PolicyTally → PolicyTally
count_policy q policy t =
    if not (is_active policy.lifecycle)
    then t
    else if (counted q policy).policy_required
    then record {
      required = true;
      selected_policy = selected_or t.selected_policy policy;
      matched_rule_ids = t.matched_rule_ids ++ (counted q policy).policy_rule_ids;
      expiry_values =
          t.expiry_values ++ policy_expiries policy (counted q policy).policy_expiry_values;
    }
    else t

unfoldable pub count_policies : PolicyQuestion → List ApprovalPolicy → PolicyTally → PolicyTally
count_policies q [] t = t
count_policies q (policy ∷ policies) t = count_policies q policies (count_policy q policy t)

abbrev pub min_of : ℕ → List ℕ → ℕ
min_of least [] = least
min_of least (n ∷ ns) = min_of (if leb least n then least else n) ns

abbrev pub least_expiry : List ℕ → Option ℕ
least_expiry [] = none
least_expiry (n ∷ ns) = some (min_of n ns)

abbrev pub policy_field : (ApprovalPolicy → String) → Option ApprovalPolicy → Option String
policy_field field none = none
policy_field field (some policy) = some (field policy)

abbrev pub summed_decision : String → PolicyTally → ApprovalPolicyDecision
summed_decision id t = record {
  decision_id = id;
  required = t.required;
  reason_code = if t.required then "approval_required_by_policy" else "no_approval_policy_match";
  policy_id = policy_field (λ policy. policy.policy_id) t.selected_policy;
  policy_version = policy_field (λ policy. policy.version) t.selected_policy;
  matched_rule_ids = t.matched_rule_ids;
  expiry_seconds = least_expiry t.expiry_values;
}

-- The contract refuses a decision that names a rule ID twice.
abbrev pub decide_policies : String → PolicyTally → Method PolicyEngine ApprovalPolicyDecision
decide_policies id t e =
    let made = record e { ids_made = e.ids_made + 1 } in
    if unique t.matched_rule_ids
    then (
      ok (summed_decision id t),
      record made { decisions = e.decisions ++ summed_decision id t ∷ [] },
    )
    else (err value_error, made)

unfoldable pub evaluate_policies :
    (String → ℕ → String)
    → List ApprovalPolicy
    → PolicyQuestion
    → Method PolicyEngine ApprovalPolicyDecision
evaluate_policies id_factory policies q e =
    decide_policies (id_factory "approval_policy_decision" e.ids_made)
      (count_policies q policies (record {
        required = false;
        selected_policy = none;
        matched_rule_ids = [];
        expiry_values = [];
      }))
      e
