-- ===== src/Governance/Permissions/DenyFirst.antt =====
-- The policies combine deny-first: a call passes them exactly when each of them permits it.
use enterprise_agent_harness.Prelude.{
  String, ◌≡◌, refl, ◌∙◌, Bool, true, ◌&&◌, ◌||◌, not, List, [], ◌∷◌, ◌++◌, nonempty, all, arith,
}
use enterprise_agent_harness.Method.{ok}
use enterprise_agent_harness.Contracts.{
  PolicyRule, PolicyDefinition, PolicyDecision, PolicyEffect, is_active,
}
use enterprise_agent_harness.Governance.Permissions.Rules.{Proposal}
use enterprise_agent_harness.Governance.Permissions.Definitions.{
  is_allow, Tally, file_under, tally_rules, tally_matched, matched, tally_policies, Entry,
  decide_tally, inactive, start, decide_active, unless_inactive, evaluate_definitions,
}

-- A policy permits a call if all its matching rules allow it, or if no rule matches and its
-- default allows it.
abbrev pub permits_matched : PolicyDefinition → List PolicyRule → Bool
permits_matched policy [] = is_allow policy.default_effect
permits_matched policy (rule ∷ rules) = is_allow rule.effect && all (λ r. is_allow r.effect) rules

abbrev pub permits : {Args : Type 0} → Proposal Args → PolicyDefinition → Bool
permits p policy = permits_matched policy (matched p policy)

pub nonempty-append : (xs : List Entry) (e : Entry) → nonempty (xs ++ e ∷ []) ≡ true
nonempty-append [] e = refl
nonempty-append (x ∷ xs) e = refl

denies-file_under :
    (effect : PolicyEffect) (e : Entry) (t : Tally)
    → nonempty (file_under effect e t).matching_deny
      ≡ (nonempty t.matching_deny || not (is_allow effect))
denies-file_under PolicyEffect.allow e t = ground arith
denies-file_under PolicyEffect.deny e t = ground (arith, nonempty-append t.matching_deny e)

denies-tally_rules :
    (policy : PolicyDefinition) (rules : List PolicyRule) (t : Tally)
    → nonempty (tally_rules policy rules t).matching_deny
      ≡ (nonempty t.matching_deny || not (all (λ r. is_allow r.effect) rules))
unfolding tally_rules
denies-tally_rules policy [] t = ground arith
denies-tally_rules policy (rule ∷ rules) t =
    denies-tally_rules policy rules _
    ∙ ground (arith, denies-file_under rule.effect (policy, rule) t)

denies-tally_matched :
    (policy : PolicyDefinition) (rules : List PolicyRule) (t : Tally)
    → nonempty (tally_matched policy rules t).matching_deny
      ≡ (nonempty t.matching_deny || not (permits_matched policy rules))
unfolding tally_matched
denies-tally_matched policy [] t = denies-file_under policy.default_effect _ t
denies-tally_matched policy (rule ∷ rules) t = denies-tally_rules policy (rule ∷ rules) _

denies-tally_policies :
    {Args : Type 0} (p : Proposal Args) (policies : List PolicyDefinition) (t : Tally)
    → nonempty (tally_policies p policies t).matching_deny
      ≡ (nonempty t.matching_deny || not (all (permits p) policies))
unfolding tally_policies
denies-tally_policies p [] t = ground arith
denies-tally_policies p (policy ∷ policies) t =
    denies-tally_policies p policies _
    ∙ ground (arith, denies-tally_matched policy (matched p policy) t)

abbrev pub all_active : List PolicyDefinition → Bool
all_active policies = all (λ policy. is_active policy.lifecycle) policies

pub nonempty-inactive :
    (policies : List PolicyDefinition) → nonempty (inactive policies) ≡ not (all_active policies)
nonempty-inactive [] = refl
nonempty-inactive (policy ∷ policies) = ground (arith, nonempty-inactive policies)

module _ {Args : Type 0} (i : String) (p : Proposal Args) where
  allowed-decide_tally :
      (denies allows : List Entry) (t : Tally) {d : PolicyDecision}
      → decide_tally i p denies allows t ≡ ok d
      → d.allowed ≡ not (nonempty denies)
  unfolding decide_tally
  allowed-decide_tally (e ∷ denies) allows t h = ground arith
  allowed-decide_tally [] (e ∷ allows) t h = ground arith
  allowed-decide_tally [] [] t h = cc

  allowed-unless_inactive :
      (idle policies : List PolicyDefinition) {d : PolicyDecision}
      → unless_inactive i p idle policies ≡ ok d
      → d.allowed ≡ (not (nonempty idle) && all (permits p) policies)
  unfolding unless_inactive decide_active
  allowed-unless_inactive [] policies h =
      allowed-decide_tally _ _ _ h ∙ ground (arith, denies-tally_policies p policies (start p))
  allowed-unless_inactive (policy ∷ idle) policies h = ground arith

  -- The policies' decision, where there is one, allows the call exactly when every policy is
  -- active and permits the call: one denying rule, or one default denial, outweighs any number
  -- of allowances. With no policy at all the call is allowed.
  pub allowed-evaluate_definitions :
      (policies : List PolicyDefinition) {d : PolicyDecision}
      → evaluate_definitions i p policies ≡ ok d
      → d.allowed ≡ (all_active policies && all (permits p) policies)
  unfolding evaluate_definitions
  allowed-evaluate_definitions [] h = ground arith
  allowed-evaluate_definitions (policy ∷ policies) h =
      allowed-unless_inactive (inactive (policy ∷ policies)) (policy ∷ policies) h
      ∙ ground (arith, nonempty-inactive (policy ∷ policies))
