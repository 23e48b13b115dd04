-- ===== src/Outcomes/References.antt =====
-- What `verify_outcome` says of the references of a proposal.
use enterprise_agent_harness.Prelude.{
  String, ◌≡◌, refl, Bool, true, false, ◌||◌, List, [], ◌∷◌, contains, keep, nonempty, arith, ◌==◌,
  string_eq, eq_iff,
}
use enterprise_agent_harness.Contracts.{ToolResult, OutcomeProposal}
use enterprise_agent_harness.Outcomes.{
  insert_sorted, sorted_set, returned_ids, invalid_ids, verify_outcome,
}

contains-insert_sorted :
    (a x : String) (ys : List String) → contains a (insert_sorted x ys) ≡ (x == a || contains a ys)
unfolding insert_sorted
contains-insert_sorted a x [] = ground arith
contains-insert_sorted a x (y ∷ ys) =
    ground (arith, eq_iff x y, eq_iff x a, eq_iff y a, contains-insert_sorted a x ys)

pub contains-sorted_set :
    (a : String) (xs : List String) → contains a (sorted_set xs) ≡ contains a xs
unfolding sorted_set
contains-sorted_set a [] = refl
contains-sorted_set a (x ∷ xs) =
    ground (arith, contains-insert_sorted a x (sorted_set xs), contains-sorted_set a xs)

nothing_kept :
    (p : String → Bool) (xs : List String) (a : String)
    → nonempty (keep p xs) ≡ false
    → contains a xs ≡ true
    → p a ≡ false
nothing_kept p [] a h c = cc
nothing_kept p (x ∷ xs) a h c = grind (arith, eq_iff x a, nothing_kept p xs a)

-- A verification that finds no invalid reference says that every evidence ID of the proposal was
-- returned by one of the tools.
pub valid-verify_outcome :
    (proposal : OutcomeProposal) (results : List ToolResult) (id : String)
    → nonempty (verify_outcome proposal results).invalid_evidence_ids ≡ false
    → contains id proposal.evidence_ids ≡ true
    → contains id (returned_ids results) ≡ true
unfolding verify_outcome invalid_ids
valid-verify_outcome proposal results id h c = ground (
  arith,
  nothing_kept _ (sorted_set proposal.evidence_ids) id h,
  contains-sorted_set id proposal.evidence_ids,
)
