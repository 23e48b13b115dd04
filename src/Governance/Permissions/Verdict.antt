-- ===== src/Governance/Permissions/Verdict.antt =====
-- `evaluate` as a whole: when it allows, and what it records.
use enterprise_agent_harness.Prelude.{
  String, ◌≡◌, refl, ap, ◌∙◌, Bool, true, false, if_case, ◌&&◌, not, Option, none, some, List, [],
  ◌∷◌, ◌++◌, is_some, all, inl, inr, arith, Bool-cases,
}
use enterprise_agent_harness.Method.{Result, ok, err, value_error}
use enterprise_agent_harness.Contracts.{PolicyDecision}
use enterprise_agent_harness.Governance.Permissions.Rules.{Proposal, Engine, HookEnd}
use enterprise_agent_harness.Governance.Permissions.Authority.{authority_failure}
use enterprise_agent_harness.Governance.Permissions.Grants.{within_authority, authority_failure_lem}
use enterprise_agent_harness.Governance.Permissions.Definitions.{evaluate_definitions}
use enterprise_agent_harness.Governance.Permissions.Evaluate.{
  finish, hook_decision, keep_approval, evaluate_hooks, combine, after_definitions, after_authority,
  evaluate,
}
use enterprise_agent_harness.Governance.Permissions.Clashes.{
  clash, Clear, Clear-same, evaluate_definitions-Clear,
}
use enterprise_agent_harness.Governance.Permissions.DenyFirst.{
  permits, all_active, allowed-evaluate_definitions,
}

abbrev pub allows_if_any : Option PolicyDecision → Bool
allows_if_any none = true
allows_if_any (some d) = d.allowed

keeps :
    (approval : Option PolicyDecision) (d : PolicyDecision)
    → allows_if_any approval ≡ true
    → d.allowed ≡ true
    → allows_if_any (keep_approval approval d) ≡ true
keeps none d h e = ground arith
keeps (some a) d h e = h

negated : (a b : Bool) → a ≡ not b → not a ≡ b
negated a b h = ground arith

module _ {Args : Type 0} where
  -- A hook allows a call if it decides or answers so; one that raises does not.
  abbrev pub hook_allows : String → Proposal Args → (Proposal Args → HookEnd) → Bool
  hook_allows i p hook = (hook_decision i p (hook p)).allowed

  allowed-evaluate_hooks :
      (i : String) (approval : Option PolicyDecision) (hooks : List (Proposal Args → HookEnd))
      (p : Proposal Args)
      → allows_if_any approval ≡ true
      → allows_if_any (evaluate_hooks i approval hooks p) ≡ all (hook_allows i p) hooks
  unfolding evaluate_hooks hook_decision
  allowed-evaluate_hooks i approval [] p h = h
  allowed-evaluate_hooks i approval (hook ∷ hooks) p h =
      elim (Bool-cases (hook_decision i p (hook p)).allowed) [
        | inl e ↦ rw e (
            allowed-evaluate_hooks i (keep_approval approval (hook_decision i p (hook p))) hooks p
              (keeps approval (hook_decision i p (hook p)) h e))
        | inr e ↦ rw e e
      ]

  allowed-combine :
      (d : PolicyDecision) (hooks : Option PolicyDecision) (p : Proposal Args)
      → (combine d hooks p).allowed ≡ allows_if_any hooks
  unfolding combine
  allowed-combine d none p = refl
  allowed-combine d (some h) p = ground arith

module _ {Args : Type 0} (engine : Engine Args) where
  -- Every policy is active and permits the call, and every hook allows it.
  abbrev pub passes : String → Proposal Args → Bool
  passes i p =
      (all_active engine.policies && all (permits p) engine.policies)
      && all (hook_allows i p) engine.resource_policy_hooks

  allowed-after_definitions :
      (i : String) (p : Proposal Args) (log : List PolicyDecision) {d : PolicyDecision}
      (e : Result PolicyDecision)
      → evaluate_definitions i p engine.policies ≡ e
      → (after_definitions engine i p e log).0 ≡ ok d
      → d.allowed ≡ passes i p
  unfolding after_definitions finish
  allowed-after_definitions i p log (err e) same h = cc
  allowed-after_definitions i p log {d} (ok x) same h = ground (
    arith,
    allowed-evaluate_definitions i p engine.policies same,
    allowed-evaluate_hooks i none engine.resource_policy_hooks p refl,
    allowed-combine x (evaluate_hooks i none engine.resource_policy_hooks p) p,
  )

  allowed-after_authority :
      (i : String) (p : Proposal Args) (log : List PolicyDecision) (failure : Option String)
      {d : PolicyDecision}
      → (after_authority engine i p failure log).0 ≡ ok d
      → d.allowed ≡ (not (is_some failure) && passes i p)
  unfolding after_authority finish
  allowed-after_authority i p log none h =
      allowed-after_definitions i p log (evaluate_definitions i p engine.policies) refl h
  allowed-after_authority i p log (some reason) h = ground arith

  allowed-evaluate :
      (p : Proposal Args) (log : List PolicyDecision) {d : PolicyDecision}
      → (evaluate engine p log).0 ≡ ok d
      → d.allowed ≡ (within_authority engine p && passes (engine.id_factory "policy_decision") p)
  unfolding evaluate
  allowed-evaluate p log {d} h =
      let allowed = allowed-after_authority _ p log (authority_failure engine p) {d = d} h in
      let granted = negated _ _ (authority_failure_lem engine p) in
      allowed ∙ ap (λ (b : Bool). b && passes (engine.id_factory "policy_decision") p) granted

  after_definitions-Clear :
      (i : String) (p : Proposal Args) (e : Result PolicyDecision) (log : List PolicyDecision)
      (clashing : Bool)
      → Clear p clashing e
      → Clear p clashing (after_definitions engine i p e log).0
  unfolding after_definitions finish
  after_definitions-Clear i p (err e) log clashing h = h
  after_definitions-Clear i p (ok d) log clashing h =
      if_case (λ (x : Result PolicyDecision × List PolicyDecision). Clear p clashing x.0) d.allowed
        h h

  after_authority-Clear :
      (i : String) (p : Proposal Args) (failure : Option String) (log : List PolicyDecision)
      → Clear p
          (not (is_some failure) && clash p engine.policies)
          (after_authority engine i p failure log).0
  unfolding after_authority finish
  after_authority-Clear i p none log =
      after_definitions-Clear i p (evaluate_definitions i p engine.policies) log _
        (evaluate_definitions-Clear p i engine.policies)
  after_authority-Clear i p (some reason) log = refl

  evaluate-Clear :
      (p : Proposal Args) (log : List PolicyDecision)
      → Clear p (within_authority engine p && clash p engine.policies) (evaluate engine p log).0
  unfolding evaluate
  evaluate-Clear p log =
      Clear-same p _
        (ap (λ (granted : Bool). granted && clash p engine.policies)
          (negated _ _ (authority_failure_lem engine p)))
        (after_authority-Clear _ p (authority_failure engine p) log)

  -- What `evaluate` answers.
  abbrev pub Judged : Proposal Args → Result PolicyDecision → Type 0
  Judged p (ok d) =
      (within_authority engine p && clash p engine.policies ≡ false)
      × (d.allowed ≡ (within_authority engine p && passes (engine.id_factory "policy_decision") p))
  Judged p (err e) =
      (within_authority engine p && clash p engine.policies ≡ true) × (e ≡ value_error)

  judged :
      (p : Proposal Args) (log : List PolicyDecision) (r : Result PolicyDecision)
      → (evaluate engine p log).0 ≡ r
      → Clear p (within_authority engine p && clash p engine.policies) r
      → Judged p r
  judged p log (ok d) same h = (h, allowed-evaluate p log {d = d} same)
  judged p log (err e) same h = h

  -- `evaluate` raises exactly when the trusted context and the engine's mappings grant the call, all
  -- policies are active and two of their rules that match have one `policy_id:rule_id`. Otherwise
  -- it returns a decision, which allows the call exactly when the context and the mappings grant
  -- it, every policy is active and permits it, and every resource hook allows it.
  pub evaluate-Judged :
      (p : Proposal Args) (log : List PolicyDecision) → Judged p (evaluate engine p log).0
  evaluate-Judged p log = judged p log _ refl (evaluate-Clear p log)

  records-after_definitions :
      (i : String) (p : Proposal Args) (log : List PolicyDecision) (e : Result PolicyDecision)
      {d : PolicyDecision}
      → (after_definitions engine i p e log).0 ≡ ok d
      → (after_definitions engine i p e log).1 ≡ log ++ d ∷ []
  unfolding after_definitions finish
  records-after_definitions i p log (err e) h = cc
  records-after_definitions i p log (ok x) h = ground arith

  records-after_authority :
      (i : String) (p : Proposal Args) (log : List PolicyDecision) (failure : Option String)
      {d : PolicyDecision}
      → (after_authority engine i p failure log).0 ≡ ok d
      → (after_authority engine i p failure log).1 ≡ log ++ d ∷ []
  unfolding after_authority finish
  records-after_authority i p log none h = records-after_definitions i p log _ h
  records-after_authority i p log (some reason) h = ground arith

  -- Every decision that `evaluate` returns, an allowance or a denial on whatever path, is appended
  -- to the engine's decisions, and nothing else is.
  pub evaluate_records :
      (p : Proposal Args) (log : List PolicyDecision) {d : PolicyDecision}
      → (evaluate engine p log).0 ≡ ok d
      → (evaluate engine p log).1 ≡ log ++ d ∷ []
  unfolding evaluate
  evaluate_records p log h = records-after_authority _ p log (authority_failure engine p) h
