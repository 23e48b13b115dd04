-- ===== src/Governance/Approvals/Required.antt =====
-- The approval policy engine against the definition that a reader would give.
use enterprise_agent_harness.Prelude.{
  append_nil, append_assoc, ℕ, String, ◌≡◌, refl, sym, ◌∙◌, inl, inr, true, false, ◌&&◌, ◌||◌,
  Option, none, some, List, [], ◌∷◌, ◌++◌, map, arith, keep, nonempty, any, unique, if_split,
  Bool-cases, if◌then◌else◌, string_eq, nat_eq,
}
use enterprise_agent_harness.Contracts.{kind_eq, risk_eq}
use enterprise_agent_harness.Governance.Approvals.Reading.{
  listed, effective, id_of, version_of, expiries_of, first_of, applies, asking, requires, ids_of,
  all_expiries, requiring, Evaluates,
}
use enterprise_agent_harness.Governance.Approvals.Least.{least_expiry-IsLeast}
use enterprise_agent_harness.Governance.Approvals.Policies.{
  ApprovalPolicyRule, ApprovalPolicy, PolicyQuestion, PolicyEngine, policy_field,
  approval_rule_matches, RuleTally, with_expiry, count_rule, count_rules, PolicyTally, selected_or,
  policy_expiries, counted, count_policy, count_policies, decide_policies, evaluate_policies,
}

policy_field_id :
    (o : Option ApprovalPolicy) → policy_field (λ policy. policy.policy_id) o ≡ id_of o
policy_field_id none = refl
policy_field_id (some policy) = refl

policy_field_version :
    (o : Option ApprovalPolicy) → policy_field (λ policy. policy.version) o ≡ version_of o
policy_field_version none = refl
policy_field_version (some policy) = refl

module _ (q : PolicyQuestion) where
  abbrev summary : List ApprovalPolicy → PolicyTally
  summary policies = record {
    required = nonempty (requiring q policies);
    selected_policy = first_of (requiring q policies);
    matched_rule_ids = ids_of q (requiring q policies);
    expiry_values = all_expiries q (requiring q policies);
  }

  extended : RuleTally → List ApprovalPolicyRule → RuleTally
  extended t hits = record {
    policy_required = t.policy_required || nonempty hits;
    policy_rule_ids = t.policy_rule_ids ++ map (λ rule. rule.rule_id) hits;
    policy_expiry_values = t.policy_expiry_values ++ expiries_of hits;
  }

  abbrev taken : ApprovalPolicyRule → RuleTally → RuleTally
  taken rule t = record {
    policy_required = true;
    policy_rule_ids = t.policy_rule_ids ++ rule.rule_id ∷ [];
    policy_expiry_values = with_expiry rule.expiry_seconds t.policy_expiry_values;
  }

  with_expiry_append :
      (given : Option ℕ) (values more : List ℕ)
      → with_expiry given values ++ more ≡ values ++ (listed given ++ more)
  with_expiry_append none values more = refl
  with_expiry_append (some seconds) values more = append_assoc values (seconds ∷ []) more

  with_expiry_nil : (given : Option ℕ) → with_expiry given [] ≡ listed given
  with_expiry_nil none = refl
  with_expiry_nil (some seconds) = refl

  extended-taken :
      (rule : ApprovalPolicyRule) (t : RuleTally) (hits : List ApprovalPolicyRule)
      → extended (taken rule t) hits ≡ extended t (rule ∷ hits)
  unfolding extended
  extended-taken rule t hits =
      let asked : true ≡ t.policy_required || true = ground arith in
      let ids =
        append_assoc t.policy_rule_ids (rule.rule_id ∷ []) (map (λ hit. hit.rule_id) hits) in
      let values =
        with_expiry_append rule.expiry_seconds t.policy_expiry_values (expiries_of hits) in
      cc

  extended_nil : (t : RuleTally) → extended t [] ≡ t
  unfolding extended
  extended_nil t =
      let asked : t.policy_required || false ≡ t.policy_required = ground arith in
      let ids = append_nil t.policy_rule_ids in let values = append_nil t.policy_expiry_values in cc

  approval_rule_matches_lem :
      (rule : ApprovalPolicyRule) → approval_rule_matches q rule ≡ applies q rule
  unfolding approval_rule_matches
  approval_rule_matches_lem rule = ground arith

  count_rule_lem :
      (rule : ApprovalPolicyRule) (t : RuleTally)
      → count_rule q rule t ≡ (if applies q rule && rule.requires_approval then taken rule t else t)
  count_rule_lem rule t = ground (arith, approval_rule_matches_lem rule)

  count_rules_lem :
      (rules : List ApprovalPolicyRule) (t : RuleTally)
      → count_rules q rules t
        ≡ extended t (keep (λ rule. applies q rule && rule.requires_approval) rules)
  unfolding count_rules
  count_rules_lem [] t = sym (extended_nil t)
  count_rules_lem (rule ∷ rules) t =
      rw (count_rule_lem rule t) (elim (Bool-cases (applies q rule && rule.requires_approval)) [
        | inl e ↦ rw e (count_rules_lem rules (taken rule t) ∙ extended-taken rule t _)
        | inr e ↦ rw e (count_rules_lem rules t)
      ])

  counted_lem :
      (policy : ApprovalPolicy)
      → counted q policy ≡ record {
        policy_required = policy.default_requires_approval || nonempty (asking q policy);
        policy_rule_ids = map (λ rule. rule.rule_id) (asking q policy);
        policy_expiry_values = expiries_of (asking q policy);
      }
  unfolding extended
  counted_lem policy = count_rules_lem policy.rules _

  abbrev chosen : Option ApprovalPolicy → List ApprovalPolicy → Option ApprovalPolicy
  chosen none policies = first_of policies
  chosen (some policy) policies = some policy

  joined : PolicyTally → List ApprovalPolicy → PolicyTally
  joined t policies = record {
    required = t.required || nonempty policies;
    selected_policy = chosen t.selected_policy policies;
    matched_rule_ids = t.matched_rule_ids ++ ids_of q policies;
    expiry_values = t.expiry_values ++ all_expiries q policies;
  }

  abbrev accepted : ApprovalPolicy → PolicyTally → PolicyTally
  accepted policy t = record {
    required = true;
    selected_policy = selected_or t.selected_policy policy;
    matched_rule_ids = t.matched_rule_ids ++ map (λ rule. rule.rule_id) (asking q policy);
    expiry_values =
        t.expiry_values ++ effective policy.default_expiry_seconds (expiries_of (asking q policy));
  }

  chosen_or :
      (o : Option ApprovalPolicy) (policy : ApprovalPolicy) (policies : List ApprovalPolicy)
      → chosen (selected_or o policy) policies ≡ chosen o (policy ∷ policies)
  chosen_or none policy policies = refl
  chosen_or (some selected) policy policies = refl

  chosen_nil : (o : Option ApprovalPolicy) → chosen o [] ≡ o
  chosen_nil none = refl
  chosen_nil (some selected) = refl

  joined-accepted :
      (policy : ApprovalPolicy) (t : PolicyTally) (policies : List ApprovalPolicy)
      → joined (accepted policy t) policies ≡ joined t (policy ∷ policies)
  unfolding joined
  joined-accepted policy t policies =
      let asked : true ≡ t.required || true = ground arith in
      let selected = chosen_or t.selected_policy policy policies in
      let ids =
        append_assoc t.matched_rule_ids (map (λ rule. rule.rule_id) (asking q policy))
          (ids_of q policies) in
      let values =
        append_assoc t.expiry_values
          (effective policy.default_expiry_seconds (expiries_of (asking q policy)))
          (all_expiries q policies) in
      cc

  joined_nil : (t : PolicyTally) → joined t [] ≡ t
  unfolding joined
  joined_nil t =
      let asked : t.required || false ≡ t.required = ground arith in
      let selected = chosen_nil t.selected_policy in
      let ids = append_nil t.matched_rule_ids in let values = append_nil t.expiry_values in cc

  policy_expiries_lem :
      (policy : ApprovalPolicy) (of_rules : List ℕ)
      → policy_expiries policy of_rules ≡ effective policy.default_expiry_seconds of_rules
  policy_expiries_lem policy [] = with_expiry_nil policy.default_expiry_seconds
  policy_expiries_lem policy (seconds ∷ more) = refl

  count_policy_lem :
      (policy : ApprovalPolicy) (t : PolicyTally)
      → count_policy q policy t ≡ (if requires q policy then accepted policy t else t)
  count_policy_lem policy t =
      let expiries = policy_expiries_lem policy (expiries_of (asking q policy)) in
      rw (counted_lem policy) (rw expiries (ground arith))

  count_policies_lem :
      (policies : List ApprovalPolicy) (t : PolicyTally)
      → count_policies q policies t ≡ joined t (keep (requires q) policies)
  unfolding count_policies
  count_policies_lem [] t = sym (joined_nil t)
  count_policies_lem (policy ∷ policies) t =
      rw (count_policy_lem policy t) (elim (Bool-cases (requires q policy)) [
        | inl e ↦
            rw e (count_policies_lem policies (accepted policy t) ∙ joined-accepted policy t _)
        | inr e ↦ rw e (count_policies_lem policies t)
      ])

  any-requiring :
      (policies : List ApprovalPolicy) → nonempty (requiring q policies) ≡ any (requires q) policies
  any-requiring [] = refl
  any-requiring (policy ∷ policies) = ground (arith, any-requiring policies)

  decide_policies-Evaluates :
      (id : String) (policies : List ApprovalPolicy) (e : PolicyEngine)
      → Evaluates q policies e.decisions (decide_policies id (summary policies) e)
  decide_policies-Evaluates id policies e =
      if_split (Evaluates q policies e.decisions) (unique (ids_of q (requiring q policies)))
        (λ fresh. (
          fresh,
          record {
            required = any-requiring policies;
            reason = rw (any-requiring policies) refl;
            policy = policy_field_id (first_of (requiring q policies));
            version = policy_field_version (first_of (requiring q policies));
            rules = refl;
            expiry = least_expiry-IsLeast (all_expiries q (requiring q policies));
          },
          refl,
        ))
        (λ repeated. (repeated, refl, refl))

  -- The engine evaluates the policies as a reader would: when the IDs of the asking rules of the
  -- requiring policies repeat, it raises and records nothing. Otherwise it returns and records one
  -- decision: an approval is required just when an active policy requires it by default or by a
  -- matching rule, the first that does is named, the matched IDs are those of all asking rules, and
  -- the expiry is the least that the requiring policies ask for, by their rules or else by default.
  pub evaluate_policies_lem :
      (id_factory : String → ℕ → String) (policies : List ApprovalPolicy) (e : PolicyEngine)
      → Evaluates q policies e.decisions (evaluate_policies id_factory policies q e)
  unfolding evaluate_policies joined
  evaluate_policies_lem id_factory policies e =
      rw (count_policies_lem policies _)
        (decide_policies-Evaluates (id_factory "approval_policy_decision" e.ids_made) policies e)
