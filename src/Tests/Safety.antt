-- ===== src/Tests/Safety.antt =====
-- The safety policy and the outcome verification at concrete runs.
use enterprise_agent_harness.Prelude.{
  String, ◌≡◌, refl, true, false, ◌&&◌, ◌||◌, not, none, some, List, [], ◌∷◌, contains, any,
  nonempty, ltb, string_eq,
}
use enterprise_agent_harness.Contracts.{
  ToolResultStatus, RiskLevel, ToolResult, OutcomeProposal, VerificationResult, RuntimeConfig,
  is_high_risk,
}
use enterprise_agent_harness.Outcomes.{
  before, insert_sorted, sorted_set, returned_ids, invalid_ids, verify_outcome,
}
use enterprise_agent_harness.Governance.Safety.{
  is_restricted, is_failure, has_succeeded, has_conflicts, has_injections, decide,
}
use enterprise_agent_harness.Governance.Safety.Decisions.{
  is_completed, is_partial, is_escalated, is_clean, decide_completes, decide_reviews,
  decide_escalates, completed-verify_outcome,
}

abbrev config : RuntimeConfig
config = record { minimum_confidence_threshold = 60; high_confidence_threshold = 80 }

abbrev result_of : List String → ToolResult
result_of conflicts = record {
  tool_id = "lookup";
  tool_version = none;
  execution_id = none;
  output = some "{}";
  metadata = [];
  status = ToolResultStatus.succeeded;
  evidence = record { evidence_id = "doc_1"; source = "wiki"; kind = "text" } ∷ [];
  restricted = false;
  conflicts = conflicts;
  injection_flags = [];
  error_code = none;
}

abbrev sure : OutcomeProposal
sure = record { summary = "done"; confidence = 90; evidence_ids = "doc_1" ∷ [] }

abbrev good : List ToolResult
good = result_of [] ∷ []

abbrev bad : List ToolResult
bad = result_of ("two totals" ∷ []) ∷ []

abbrev checked : VerificationResult
checked = verify_outcome sure bad

decide_completes_example : is_completed (decide config bad sure checked RiskLevel.high).status ≡ (
    is_clean bad
    && not (nonempty checked.invalid_evidence_ids)
    && not (ltb 90 60)
    && not (ltb 90 80))
decide_completes_example = decide_completes config bad sure checked RiskLevel.high

decide_reviews_example : (decide config bad sure checked RiskLevel.high).human_review_required ≡ (
    is_partial (decide config bad sure checked RiskLevel.high).status
    || is_escalated (decide config bad sure checked RiskLevel.high).status
    || (not (any is_restricted bad) && nonempty checked.invalid_evidence_ids))
decide_reviews_example = decide_reviews config bad sure checked RiskLevel.high

decide_escalates_example : is_escalated (decide config bad sure checked RiskLevel.high).status ≡ (
    is_high_risk RiskLevel.high
    && not (any is_restricted bad)
    && (nonempty checked.invalid_evidence_ids
        || (any has_succeeded bad
            && (any has_conflicts bad
                || any has_injections bad
                || (not (any is_failure bad) && ltb 90 60)))))
decide_escalates_example = decide_escalates config bad sure checked RiskLevel.high

completed-verify_outcome_example : contains "doc_1" (returned_ids good) ≡ true
unfolding verify_outcome invalid_ids returned_ids sorted_set insert_sorted before decide
completed-verify_outcome_example =
    completed-verify_outcome config good sure RiskLevel.high "doc_1" refl refl
