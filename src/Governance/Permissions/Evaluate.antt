-- ===== src/Governance/Permissions/Evaluate.antt =====
-- governance/permissions.py: `_evaluate_resource_hooks`, `evaluate` and `_finish`. The list of
-- decisions is the state; a decision's ID is `engine.id_factory` on the prefix. How
-- `_call_resource_hook` passes the arguments to a hook is left out: a hook reads the whole call.
use enterprise_agent_harness.Prelude.{
  String, Bool, true, false, ◌||◌, Option, none, some, List, [], ◌∷◌, ◌++◌, if◌then◌else◌,
}
use enterprise_agent_harness.Method.{Method, Result, ok, err}
use enterprise_agent_harness.Contracts.{PolicyDecision}
use enterprise_agent_harness.Governance.Permissions.Rules.{
  Proposal, Engine, HookEnd, decided, answered, raised,
}
use enterprise_agent_harness.Governance.Permissions.Authority.{authority_failure}
use enterprise_agent_harness.Governance.Permissions.Definitions.{decision, evaluate_definitions}

-- `approval_decision or decision`
abbrev pub keep_approval : Option PolicyDecision → PolicyDecision → Option PolicyDecision
keep_approval (some first) d = some first
keep_approval none d = if d.approval_required then some d else none

-- `_finish`: every decision is recorded.
unfoldable pub finish : PolicyDecision → Method (List PolicyDecision) PolicyDecision
finish d log = (ok d, log ++ d ∷ [])

module _ {Args : Type 0} where
  -- `result.model_copy(update={**base, ...})`: the hook's verdict about this call.
  abbrev pub rebased : String → Proposal Args → PolicyDecision → PolicyDecision
  rebased i p d = record (decision i p d.allowed d.reason_code) {
    policy_id = d.policy_id;
    policy_version = d.policy_version;
    rule_id = d.rule_id;
    matched_rule_ids = d.matched_rule_ids;
    approval_required = d.approval_required;
  }

  unfoldable pub hook_decision : String → Proposal Args → HookEnd → PolicyDecision
  hook_decision i p (decided d) = rebased i p d
  hook_decision i p (answered true) = decision i p true "resource_policy_allowed"
  hook_decision i p (answered false) = decision i p false "resource_policy_denied"
  hook_decision i p raised = decision i p false "resource_policy_error"

  -- The loop over the hooks; the second argument is `approval_decision`.
  unfoldable pub evaluate_hooks :
      String
      → Option PolicyDecision
      → List (Proposal Args → HookEnd)
      → Proposal Args
      → Option PolicyDecision
  evaluate_hooks i approval [] p = approval
  evaluate_hooks i approval (hook ∷ hooks) p =
      let d = hook_decision i p (hook p) in
      let rest = evaluate_hooks i (keep_approval approval d) hooks p in
      if d.allowed then rest else some d

  abbrev pub approved_by : PolicyDecision → Proposal Args → Bool → PolicyDecision
  approved_by d p hook_requires =
      let required = d.approval_required || p.tool.requires_approval || hook_requires in
      record d {
        allowed = true;
        approval_required = required;
        reason_code = if required then "policy_allows_with_approval" else d.reason_code;
      }

  -- What follows the hooks.
  unfoldable pub combine : PolicyDecision → Option PolicyDecision → Proposal Args → PolicyDecision
  combine d none p = approved_by d p false
  combine d (some h) p = if h.allowed then approved_by d p h.approval_required else h

module _ {Args : Type 0} (engine : Engine Args) where
  -- What follows the policies.
  unfoldable pub after_definitions :
      String → Proposal Args → Result PolicyDecision → Method (List PolicyDecision) PolicyDecision
  after_definitions i p (err e) log = (err e, log)
  after_definitions i p (ok d) log =
      if d.allowed
      then finish (combine d (evaluate_hooks i none engine.resource_policy_hooks p) p) log
      else finish d log

  unfoldable pub after_authority :
      String → Proposal Args → Option String → Method (List PolicyDecision) PolicyDecision
  after_authority i p (some reason) = finish (decision i p false reason)
  after_authority i p none = after_definitions i p (evaluate_definitions i p engine.policies)

  unfoldable pub evaluate : Proposal Args → Method (List PolicyDecision) PolicyDecision
  evaluate p = after_authority (engine.id_factory "policy_decision") p (authority_failure engine p)
