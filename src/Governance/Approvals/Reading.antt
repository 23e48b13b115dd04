-- ===== src/Governance/Approvals/Reading.antt =====
-- When the approval policies require an approval, and the decision on them, as a reader would say
-- it: without the loops of the engine, its variables and its order of tests.
use enterprise_agent_harness.Prelude.{
  ℕ, String, ◌≡◌, Bool, true, false, ◌&&◌, ◌||◌, not, Eq, Option, none, some, List, [], ◌∷◌, ◌++◌,
  map, keep, nonempty, any, all, contains, unique, leb, if◌then◌else◌, string_eq, nat_eq,
}
use enterprise_agent_harness.Method.{Result, ok, err, value_error}
use enterprise_agent_harness.Contracts.{is_active, kind_eq, risk_eq}
use enterprise_agent_harness.Governance.Approvals.Policies.{
  ApprovalPolicyRule, ApprovalPolicy, PolicyQuestion, PolicyEngine, ApprovalPolicyDecision,
}

abbrev pub listed : Option ℕ → List ℕ
listed none = []
listed (some seconds) = seconds ∷ []

-- The expiries that a policy asks for: its rules', or else its own.
abbrev pub effective : Option ℕ → List ℕ → List ℕ
effective own of_rules = if nonempty of_rules then of_rules else listed own

-- An empty list of a rule stands for every value.
abbrev pub covers : {A : Type 0} ⦃e : Eq A⦄ → List A → A → Bool
covers values value = not (nonempty values) || contains value values

abbrev pub id_of : Option ApprovalPolicy → Option String
id_of none = none
id_of (some policy) = some policy.policy_id

abbrev pub version_of : Option ApprovalPolicy → Option String
version_of none = none
version_of (some policy) = some policy.version

-- Whether there is a number at all, and it is one of the list and none of the list is less.
abbrev pub IsLeast : Option ℕ → List ℕ → Type 0
IsLeast none ns = ns ≡ []
IsLeast (some least) ns = (contains least ns ≡ true) × (all (leb least) ns ≡ true)

abbrev pub expiries_of : List ApprovalPolicyRule → List ℕ
expiries_of [] = []
expiries_of (rule ∷ rules) = listed rule.expiry_seconds ++ expiries_of rules

abbrev pub first_of : List ApprovalPolicy → Option ApprovalPolicy
first_of [] = none
first_of (policy ∷ policies) = some policy

module _ (q : PolicyQuestion) where
  abbrev pub applies : ApprovalPolicyRule → Bool
  applies rule =
      covers rule.tool_ids q.tool.tool_id
      && covers rule.action_ids q.action_id
      && covers rule.action_kinds q.tool.kind
      && covers rule.risk_levels q.tool.risk_level
      && covers rule.environments q.execution.environment

  -- The rules of a policy that ask for an approval of the action.
  abbrev pub asking : ApprovalPolicy → List ApprovalPolicyRule
  asking policy = keep (λ rule. applies rule && rule.requires_approval) policy.rules

  -- Whether a policy requires one: it is active, and it does so by default or by a rule.
  abbrev pub requires : ApprovalPolicy → Bool
  requires policy =
      is_active policy.lifecycle && (policy.default_requires_approval || nonempty (asking policy))

  abbrev pub ids_of : List ApprovalPolicy → List String
  ids_of [] = []
  ids_of (policy ∷ policies) = map (λ rule. rule.rule_id) (asking policy) ++ ids_of policies

  abbrev pub all_expiries : List ApprovalPolicy → List ℕ
  all_expiries [] = []
  all_expiries (policy ∷ policies) =
      effective policy.default_expiry_seconds (expiries_of (asking policy)) ++ all_expiries policies

  abbrev pub requiring : List ApprovalPolicy → List ApprovalPolicy
  requiring policies = keep requires policies

  -- The decision on policies: an approval is required just when one of them requires it, the first
  -- that does is named with the IDs of all asking rules, and the expiry is the least.
  pub record Decides (policies : List ApprovalPolicy) (d : ApprovalPolicyDecision) : Type 0 where
    pub required : d.required ≡ any requires policies
    pub reason : d.reason_code ≡ (
        if any requires policies then "approval_required_by_policy" else "no_approval_policy_match")
    pub policy : d.policy_id ≡ id_of (first_of (requiring policies))
    pub version : d.policy_version ≡ version_of (first_of (requiring policies))
    pub rules : d.matched_rule_ids ≡ ids_of (requiring policies)
    pub expiry : IsLeast d.expiry_seconds (all_expiries (requiring policies))

  -- What `evaluate` does: with rule IDs that repeat it raises and records nothing, else it returns
  -- and records the decision.
  abbrev pub Evaluates :
      List ApprovalPolicy
      → List ApprovalPolicyDecision
      → Result ApprovalPolicyDecision × PolicyEngine
      → Type 0
  Evaluates policies before (ok d, e) =
      (unique (ids_of (requiring policies)) ≡ true)
      × Decides policies d
      × (e.decisions ≡ before ++ d ∷ [])
  Evaluates policies before (err x, e) =
      (unique (ids_of (requiring policies)) ≡ false) × (x ≡ value_error) × (e.decisions ≡ before)
