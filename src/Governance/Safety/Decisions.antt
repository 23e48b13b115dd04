-- ===== src/Governance/Safety/Decisions.antt =====
-- Which outcomes `SafetyPolicy.decide` allows.
use enterprise_agent_harness.Prelude.{
  String, ◌≡◌, refl, Bool, true, false, ◌||◌, ◌&&◌, not, List, [], ◌∷◌, arith, ltb, any, contains,
  nonempty, string_eq, nat_eq,
}
use enterprise_agent_harness.Contracts.{
  OutcomeStatus, RiskLevel, ToolResult, OutcomeProposal, VerificationResult, RuntimeConfig,
  is_high_risk,
}
use enterprise_agent_harness.Outcomes.{returned_ids, verify_outcome}
use enterprise_agent_harness.Outcomes.References.{valid-verify_outcome}
use enterprise_agent_harness.Governance.Safety.{
  is_restricted, is_failure, has_succeeded, has_conflicts, has_injections, decide,
}

abbrev pub is_completed : OutcomeStatus → Bool
is_completed OutcomeStatus.completed = true
is_completed _ = false

abbrev pub is_refused : OutcomeStatus → Bool
is_refused OutcomeStatus.refused = true
is_refused _ = false

abbrev pub is_partial : OutcomeStatus → Bool
is_partial OutcomeStatus.partial = true
is_partial _ = false

abbrev pub is_escalated : OutcomeStatus → Bool
is_escalated OutcomeStatus.escalated = true
is_escalated _ = false

-- The results carry nothing that a reviewer would have to see.
abbrev pub is_clean : List ToolResult → Bool
is_clean results =
    not (any is_restricted results)
    && not (any is_failure results)
    && not (any has_conflicts results)
    && not (any has_injections results)
    && any has_succeeded results

nothing_succeeded :
    (results : List ToolResult) → nonempty results ≡ false → any has_succeeded results ≡ false
nothing_succeeded [] h = refl
nothing_succeeded (x ∷ xs) h = cc

-- A run is completed exactly when some tool succeeded, none failed, was restricted, reported a
-- conflict or carried injected text, every evidence reference is valid, and the confidence is
-- below neither threshold, whatever the risk.
pub decide_completes :
    (config : RuntimeConfig) (results : List ToolResult) (proposal : OutcomeProposal)
    (verification : VerificationResult) (risk : RiskLevel)
    → is_completed (decide config results proposal verification risk).status ≡ (
        is_clean results
        && not (nonempty verification.invalid_evidence_ids)
        && not (ltb proposal.confidence config.minimum_confidence_threshold)
        && not (ltb proposal.confidence config.high_confidence_threshold))
unfolding decide
decide_completes config results proposal verification risk =
    ground (arith, nothing_succeeded results)

-- A run is refused exactly when a tool returned restricted data.
pub decide_refuses :
    (config : RuntimeConfig) (results : List ToolResult) (proposal : OutcomeProposal)
    (verification : VerificationResult) (risk : RiskLevel)
    → is_refused (decide config results proposal verification risk).status
      ≡ any is_restricted results
unfolding decide
decide_refuses config results proposal verification risk = ground arith

-- Human review is asked for exactly when the outcome is partial or escalated, or when no tool
-- returned restricted data and the proposal has an invalid evidence reference.
pub decide_reviews :
    (config : RuntimeConfig) (results : List ToolResult) (proposal : OutcomeProposal)
    (verification : VerificationResult) (risk : RiskLevel)
    → (decide config results proposal verification risk).human_review_required ≡ (
        is_partial (decide config results proposal verification risk).status
        || is_escalated (decide config results proposal verification risk).status
        || (not (any is_restricted results) && nonempty verification.invalid_evidence_ids))
unfolding decide
decide_reviews config results proposal verification risk = ground arith

-- A run is escalated exactly when its highest risk is high or critical, no tool returned restricted
-- data, and either an evidence reference is invalid or some tool succeeded and the results conflict,
-- carry injected text, or all went well with a confidence below the minimum.
pub decide_escalates :
    (config : RuntimeConfig) (results : List ToolResult) (proposal : OutcomeProposal)
    (verification : VerificationResult) (risk : RiskLevel)
    → is_escalated (decide config results proposal verification risk).status ≡ (
        is_high_risk risk
        && not (any is_restricted results)
        && (nonempty verification.invalid_evidence_ids
            || (any has_succeeded results
                && (any has_conflicts results
                    || any has_injections results
                    || (not (any is_failure results)
                        && ltb proposal.confidence config.minimum_confidence_threshold)))))
unfolding decide
decide_escalates config results proposal verification risk =
    ground (arith, nothing_succeeded results)

-- When the decision over the runtime's own verification of a proposal completes the run, every
-- evidence ID of the proposal was returned by one of the run's tools.
pub completed-verify_outcome :
    (config : RuntimeConfig) (results : List ToolResult) (proposal : OutcomeProposal)
    (risk : RiskLevel) (id : String)
    → (decide config results proposal (verify_outcome proposal results) risk).status
      ≡ OutcomeStatus.completed
    → contains id proposal.evidence_ids ≡ true
    → contains id (returned_ids results) ≡ true
completed-verify_outcome config results proposal risk id h c =
    valid-verify_outcome proposal results id
      (ground
        (arith, decide_completes config results proposal (verify_outcome proposal results) risk))
      c
