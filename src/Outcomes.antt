-- ===== src/Outcomes.antt =====
-- verification/outcomes.py: `verify_outcome`, the check of a provider's evidence references. The
-- coverage is a quotient of two counts, kept as the pair of them.
pub mod References
use Prim.Native.Char.{code}
use enterprise_agent_harness.Prelude.{
  ℕ, String, Bool, true, false, ◌||◌, ◌&&◌, not, List, [], ◌∷◌, ◌++◌, map, ltb, contains, keep,
  length, nonempty, ◌==◌, string_eq, nat_eq, if◌then◌else◌,
}
use enterprise_agent_harness.Contracts.{
  EvidenceRef, ToolResult, OutcomeProposal, VerificationResult,
}

-- `a < b` on texts: by code points.
unfoldable pub before : String → String → Bool
before String.[] String.[] = false
before String.[] (String.◌∷◌ d t) = true
before (String.◌∷◌ c s) String.[] = false
before (String.◌∷◌ c s) (String.◌∷◌ d t) = ltb (code c) (code d) || code c == code d && before s t

unfoldable pub insert_sorted : String → List String → List String
insert_sorted x [] = x ∷ []
insert_sorted x (y ∷ ys) =
    let rest = insert_sorted x ys in
    if x == y then y ∷ ys else if before x y then x ∷ y ∷ ys else y ∷ rest

-- `sorted(set(xs))`
unfoldable pub sorted_set : List String → List String
sorted_set [] = []
sorted_set (x ∷ xs) = insert_sorted x (sorted_set xs)

unfoldable pub returned_ids : List ToolResult → List String
returned_ids [] = []
returned_ids (result ∷ results) =
    map (λ item. item.evidence_id) result.evidence ++ returned_ids results

unfoldable pub invalid_ids : OutcomeProposal → List ToolResult → List String
invalid_ids proposal results =
    keep (λ id. not (contains id (returned_ids results))) (sorted_set proposal.evidence_ids)

abbrev pub coverage : OutcomeProposal → List ToolResult → ℕ × ℕ
coverage proposal results =
    let requested = sorted_set proposal.evidence_ids in
    if nonempty requested
    then (length (keep (λ id. contains id (returned_ids results)) requested), length requested)
    else (1, 1)

unfoldable pub verify_outcome : OutcomeProposal → List ToolResult → VerificationResult
verify_outcome proposal results =
    let invalid = invalid_ids proposal results in
    record {
      supported = not (nonempty invalid);
      confidence = proposal.confidence;
      evidence_coverage = coverage proposal results;
      invalid_evidence_ids = invalid;
      reasons = if nonempty invalid then "provider referenced unavailable evidence" ∷ [] else [];
    }
