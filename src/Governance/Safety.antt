-- ===== src/Governance/Safety.antt =====
-- governance/safety.py: the injection patterns and `SafetyPolicy`. Python's `re.search` with
-- IGNORECASE is the parameter `search`, a pattern first.
pub mod Decisions
use enterprise_agent_harness.Prelude.{
  String, Bool, true, false, ◌||◌, ◌&&◌, not, Option, none, some, List, [], ◌∷◌, ◌++◌, ltb, keep,
  any, nonempty, ◌==◌, string_eq, option_eq, if◌then◌else◌,
}
use enterprise_agent_harness.Contracts.{
  ToolResultStatus, OutcomeStatus, RiskLevel, SafetyFlag, ToolResult, OutcomeProposal,
  VerificationResult, RuntimeConfig, is_high_risk,
}

abbrev pub direct_injection_patterns : List String
direct_injection_patterns =
    "\\bignore\\s+(?:all|any|the|your|previous|prior)\\s+(?:system\\s+)?(?:instructions|rules|policy)\\b"
    ∷ "\\b(?:reveal|show|print|dump)\\b.{0,50}\\b(?:system|developer)\\s+prompt\\b"
    ∷ "\\b(?:change|bypass|override)\\b.{0,50}\\b(?:permission|role|access|policy)\\b"
    ∷ "\\b(?:you are now|pretend you are|act as)\\b.{0,50}\\b(?:admin|system|developer)\\b"
    ∷ "\\bdo not follow\\b.{0,50}\\b(?:policy|instructions|rules)\\b" ∷ []

abbrev pub indirect_injection_patterns : List String
indirect_injection_patterns =
    "\\bignore\\s+(?:all|any|the|your|previous|prior)\\s+(?:system\\s+)?(?:instructions|rules|policy)\\b"
    ∷ "\\b(?:system|developer)\\s+(?:message|instruction|prompt)\\b"
    ∷ "\\b(?:reveal|exfiltrate|send|forward)\\b.{0,60}\\b(?:secret|prompt|credential|token|private)\\b"
    ∷ "\\b(?:change|bypass|override)\\b.{0,50}\\b(?:permission|role|access|policy)\\b" ∷ []

pub record SafetyDecision : Type 0 where
  pub status : OutcomeStatus
  pub flags : List SafetyFlag
  pub reasons : List String
  pub human_review_required : Bool
  pub escalation_code : Option String

module _ (search : String → String → Bool) where
  unfoldable pub direct_injection_matches : String → List String
  direct_injection_matches text = keep (λ pattern. search pattern text) direct_injection_patterns

  unfoldable pub indirect_injection_matches : String → List String
  indirect_injection_matches text =
      keep (λ pattern. search pattern text) indirect_injection_patterns

  unfoldable pub inspect_input : String → Option SafetyDecision
  inspect_input text =
      if nonempty (direct_injection_matches text)
      then some (record {
        status = OutcomeStatus.refused;
        flags = SafetyFlag.direct_prompt_injection ∷ [];
        reasons = "input attempted to override runtime instructions or authority" ∷ [];
        human_review_required = false;
        escalation_code = some "direct_prompt_injection";
      })
      else none

abbrev pub is_restricted : ToolResult → Bool
is_restricted result =
    result.restricted || elim result.status [ ToolResultStatus.restricted ↦ true | _ ↦ false ]

-- `status in {FAILED, INVALID_ARGUMENTS}`
abbrev pub is_failure : ToolResult → Bool
is_failure result = elim result.status [
  | ToolResultStatus.failed ↦ true
  | ToolResultStatus.invalid_arguments ↦ true
  | _ ↦ false
]

abbrev pub has_succeeded : ToolResult → Bool
has_succeeded result = elim result.status [ ToolResultStatus.succeeded ↦ true | _ ↦ false ]

abbrev pub timed_out : ToolResult → Bool
timed_out result = result.error_code == some "tool_timeout"

abbrev pub has_conflicts : ToolResult → Bool
has_conflicts result = nonempty result.conflicts

abbrev pub has_injections : ToolResult → Bool
has_injections result = nonempty result.injection_flags

abbrev pub decided_restricted : SafetyDecision
decided_restricted = record {
  status = OutcomeStatus.refused;
  flags = SafetyFlag.restricted_result ∷ [];
  reasons = "a tool returned data that is not available to this principal" ∷ [];
  human_review_required = false;
  escalation_code = some "restricted_result";
}

abbrev pub decided_unverified : RiskLevel → SafetyDecision
decided_unverified highest_risk = record {
  status = if is_high_risk highest_risk then OutcomeStatus.escalated else OutcomeStatus.needs_input;
  flags = SafetyFlag.verification_failed ∷ [];
  reasons = "the provider referenced data that no tool returned" ∷ [];
  human_review_required = true;
  escalation_code = some "outcome_verification_failed";
}

abbrev pub decided_no_result : String → SafetyDecision
decided_no_result reason = record {
  status = OutcomeStatus.needs_input;
  flags = SafetyFlag.no_result ∷ [];
  reasons = reason ∷ [];
  human_review_required = false;
  escalation_code = none;
}

abbrev pub decided_all_failed : Bool → SafetyDecision
decided_all_failed timeout = record {
  status = OutcomeStatus.failed;
  flags = SafetyFlag.tool_failure ∷ (if timeout then SafetyFlag.tool_timeout ∷ [] else []);
  reasons = "all proposed tool calls failed" ∷ [];
  human_review_required = false;
  escalation_code = some "all_tools_failed";
}

-- `flags` and `reasons` after the three tests on a usable result.
abbrev pub review_flags : Bool → Bool → Bool → Bool → List SafetyFlag
review_flags failures timeout conflicts injections =
    (if failures
      then SafetyFlag.tool_failure ∷ (if timeout then SafetyFlag.tool_timeout ∷ [] else [])
      else [])
    ++ (if conflicts then SafetyFlag.conflicting_result ∷ [] else [])
    ++ (if injections then SafetyFlag.indirect_prompt_injection ∷ [] else [])

abbrev pub review_reasons : Bool → Bool → Bool → Bool → List String
review_reasons failures timeout conflicts injections =
    (if failures
      then "one or more tool calls failed"
        ∷ (if timeout then "one or more tool calls exceeded their timeout" ∷ [] else [])
      else [])
    ++ (if conflicts then "tool results contain conflicting claims" ∷ [] else [])
    ++ (if injections
        then "tool output contained instruction-like text and remained untrusted data" ∷ []
        else [])

-- Both answers when the results conflict, carry injected text or partly fail.
abbrev pub decided_review : OutcomeStatus → String → Bool → Bool → Bool → Bool → SafetyDecision
decided_review status code failures timeout conflicts injections = record {
  status = status;
  flags = review_flags failures timeout conflicts injections;
  reasons = review_reasons failures timeout conflicts injections;
  human_review_required = true;
  escalation_code = some code;
}

abbrev pub decided_low_confidence : RiskLevel → SafetyDecision
decided_low_confidence highest_risk = record {
  status = if is_high_risk highest_risk then OutcomeStatus.escalated else OutcomeStatus.needs_input;
  flags = SafetyFlag.low_confidence ∷ [];
  reasons = "provider confidence is below the minimum threshold" ∷ [];
  human_review_required = is_high_risk highest_risk;
  escalation_code = if is_high_risk highest_risk then some "low_confidence_high_risk" else none;
}

abbrev pub decided_moderate : SafetyDecision
decided_moderate = record {
  status = OutcomeStatus.partial;
  flags = SafetyFlag.low_confidence ∷ [];
  reasons = "provider confidence is below the completed-outcome threshold" ∷ [];
  human_review_required = true;
  escalation_code = some "moderate_confidence";
}

abbrev pub decided_completed : SafetyDecision
decided_completed = record {
  status = OutcomeStatus.completed;
  flags = [];
  reasons = [];
  human_review_required = false;
  escalation_code = none;
}

unfoldable pub decide :
    RuntimeConfig
    → List ToolResult
    → OutcomeProposal
    → VerificationResult
    → RiskLevel
    → SafetyDecision
decide config results proposal verification highest_risk =
    let injections = any has_injections results in
    let conflicts = any has_conflicts results in
    let failures = any is_failure results in
    let successes = any has_succeeded results in
    let timeout = any timed_out (keep is_failure results) in
    if any is_restricted results
    then decided_restricted
    else if nonempty verification.invalid_evidence_ids
    then decided_unverified highest_risk
    else if not (nonempty results)
    then decided_no_result "the plan returned no tool result"
    else if not successes && not failures
    then decided_no_result "the tools returned no usable result"
    else if not successes && failures
    then decided_all_failed timeout
    else if is_high_risk highest_risk && (conflicts || injections)
    then decided_review OutcomeStatus.escalated "high_risk_unresolved_result" failures timeout
        conflicts injections
    else if conflicts || injections || failures
    then decided_review OutcomeStatus.partial "result_requires_review" failures timeout conflicts
        injections
    else if ltb proposal.confidence config.minimum_confidence_threshold
    then decided_low_confidence highest_risk
    else if ltb proposal.confidence config.high_confidence_threshold
    then decided_moderate
    else decided_completed
