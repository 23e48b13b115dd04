-- ===== src/Governance/Permissions/Clashes.antt =====
-- When the policies' decision is refused by its contract: the IDs of the matching rules repeat.
use mathlib.Core.Path.{subst}
use enterprise_agent_harness.Prelude.{
  String, ◌≡◌, refl, ap, sym, ◌∙◌, Bool, true, false, ◌&&◌, ◌||◌, not, List, [], ◌∷◌, ◌++◌, map,
  nonempty, unique, arith, if_split, append_nil, append_assoc, string_eq,
}
use enterprise_agent_harness.Method.{Result, ok, err, value_error}
use enterprise_agent_harness.Contracts.{PolicyRule, PolicyDefinition, PolicyDecision, PolicyEffect}
use enterprise_agent_harness.Governance.Permissions.Rules.{Proposal}
use enterprise_agent_harness.Governance.Permissions.Definitions.{
  Tally, Entry, file_under, tally_rules, tally_matched, tally_policies, matched, matched_id,
  decide_tally, decide_active, unless_inactive, evaluate_definitions, inactive, start,
}
use enterprise_agent_harness.Governance.Permissions.DenyFirst.{
  nonempty-append, nonempty-inactive, all_active,
}

-- Whether a rule has been filed.
abbrev filed : Tally → Bool
filed t = nonempty t.matching_deny || nonempty t.matching_allow

filed-file_under :
    (effect : PolicyEffect) (e : Entry) (t : Tally) → filed (file_under effect e t) ≡ true
filed-file_under PolicyEffect.allow e t = ground (arith, nonempty-append t.matching_allow e)
filed-file_under PolicyEffect.deny e t = ground (arith, nonempty-append t.matching_deny e)

filed-tally_rules :
    (policy : PolicyDefinition) (rules : List PolicyRule) (t : Tally)
    → filed t ≡ true
    → filed (tally_rules policy rules t) ≡ true
unfolding tally_rules
filed-tally_rules policy [] t h = h
filed-tally_rules policy (rule ∷ rules) t h =
    filed-tally_rules policy rules _ (filed-file_under rule.effect (policy, rule) _)

filed-tally_matched :
    (policy : PolicyDefinition) (rules : List PolicyRule) (t : Tally)
    → filed (tally_matched policy rules t) ≡ true
unfolding tally_matched tally_rules
filed-tally_matched policy [] t = filed-file_under policy.default_effect _ t
filed-tally_matched policy (rule ∷ rules) t =
    filed-tally_rules policy rules _ (filed-file_under rule.effect (policy, rule) _)

same_ids-file_under :
    (effect : PolicyEffect) (e : Entry) (t : Tally)
    → (file_under effect e t).matched_ids ≡ t.matched_ids
same_ids-file_under PolicyEffect.allow e t = refl
same_ids-file_under PolicyEffect.deny e t = refl

same_ids-tally_rules :
    (policy : PolicyDefinition) (rules : List PolicyRule) (t : Tally)
    → (tally_rules policy rules t).matched_ids ≡ t.matched_ids
unfolding tally_rules
same_ids-tally_rules policy [] t = refl
same_ids-tally_rules policy (rule ∷ rules) t =
    same_ids-tally_rules policy rules _ ∙ same_ids-file_under rule.effect (policy, rule) _

ids-tally_matched :
    (policy : PolicyDefinition) (rules : List PolicyRule) (t : Tally)
    → (tally_matched policy rules t).matched_ids ≡ t.matched_ids ++ map (matched_id policy) rules
unfolding tally_matched
ids-tally_matched policy [] t =
    same_ids-file_under policy.default_effect _ t ∙ sym (append_nil t.matched_ids)
ids-tally_matched policy (rule ∷ rules) t = same_ids-tally_rules policy (rule ∷ rules) _

idle_active :
    (idle active repeated : Bool) → idle ≡ not active → not idle && repeated ≡ active && repeated
idle_active idle active repeated h = ground arith

module _ {Args : Type 0} (p : Proposal Args) where
  -- The IDs of all rules that match the call.
  abbrev pub matching_ids : List PolicyDefinition → List String
  matching_ids [] = []
  matching_ids (policy ∷ policies) =
      map (matched_id policy) (matched p policy) ++ matching_ids policies

  -- The policies are all active, and two of the rules that match have one ID.
  abbrev pub clash : List PolicyDefinition → Bool
  clash policies = all_active policies && not (unique (matching_ids policies))

  -- A clash raises, and nothing else does.
  abbrev pub Clear : Bool → Result PolicyDecision → Type 0
  Clear clashing (ok d) = clashing ≡ false
  Clear clashing (err e) = (clashing ≡ true) × (e ≡ value_error)

  pub Clear-same : {a b : Bool} (r : Result PolicyDecision) → a ≡ b → Clear a r → Clear b r
  Clear-same r e h = subst (λ (x : Bool). Clear x r) e h

  filed-tally_policies :
      (policies : List PolicyDefinition) (t : Tally)
      → filed t ≡ true
      → filed (tally_policies p policies t) ≡ true
  unfolding tally_policies
  filed-tally_policies [] t h = h
  filed-tally_policies (policy ∷ policies) t h =
      filed-tally_policies policies _ (filed-tally_matched policy (matched p policy) t)

  ids-tally_policies :
      (policies : List PolicyDefinition) (t : Tally)
      → (tally_policies p policies t).matched_ids ≡ t.matched_ids ++ matching_ids policies
  unfolding tally_policies
  ids-tally_policies [] t = sym (append_nil t.matched_ids)
  ids-tally_policies (policy ∷ policies) t =
      ids-tally_policies policies _
      ∙ (ap (λ (ids : List String). ids ++ matching_ids policies)
            (ids-tally_matched policy (matched p policy) t)
          ∙ append_assoc t.matched_ids (map (matched_id policy) (matched p policy))
              (matching_ids policies))

  decide_tally-Clear :
      (i : String) (denies allows : List Entry) (t : Tally)
      → nonempty denies || nonempty allows ≡ true
      → Clear (not (unique t.matched_ids)) (decide_tally i p denies allows t)
  unfolding decide_tally
  decide_tally-Clear i [] [] t h = absurd (ground arith)
  decide_tally-Clear i [] (e ∷ allows) t h =
      if_split (Clear (not (unique t.matched_ids))) (unique t.matched_ids) (λ u. ground arith)
        (λ u. (ground arith, refl))
  decide_tally-Clear i (e ∷ denies) allows t h =
      if_split (Clear (not (unique t.matched_ids))) (unique t.matched_ids) (λ u. ground arith)
        (λ u. (ground arith, refl))

  unless_inactive-Clear :
      (i : String) (idle : List PolicyDefinition) (policy : PolicyDefinition)
      (policies : List PolicyDefinition)
      → Clear
          (not (nonempty idle) && not (unique (matching_ids (policy ∷ policies))))
          (unless_inactive i p idle (policy ∷ policies))
  unfolding unless_inactive decide_active tally_policies
  unless_inactive-Clear i (one ∷ idle) policy policies = refl
  unless_inactive-Clear i [] policy policies =
      let t = tally_matched policy (matched p policy) (start p) in
      let same : (tally_policies p policies t).matched_ids ≡ matching_ids (policy ∷ policies) =
        ids-tally_policies (policy ∷ policies) (start p) in
      Clear-same _ (ap (λ (ids : List String). not (unique ids)) same) (
        decide_tally-Clear i _ _ (tally_policies p policies t) (
          filed-tally_policies policies t
            (filed-tally_matched policy (matched p policy) (start p))))

  pub evaluate_definitions-Clear :
      (i : String) (policies : List PolicyDefinition)
      → Clear (clash policies) (evaluate_definitions i p policies)
  unfolding evaluate_definitions
  evaluate_definitions-Clear i [] = refl
  evaluate_definitions-Clear i (policy ∷ policies) =
      Clear-same _
        (idle_active _ _ (not (unique (matching_ids (policy ∷ policies))))
          (nonempty-inactive (policy ∷ policies)))
        (unless_inactive-Clear i (inactive (policy ∷ policies)) policy policies)
