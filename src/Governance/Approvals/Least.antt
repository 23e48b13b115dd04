-- ===== src/Governance/Approvals/Least.antt =====
-- The expiry that the approval policy engine picks is the least.
use enterprise_agent_harness.Prelude.{
  ℕ, ◌≡◌, refl, true, List, [], ◌∷◌, arith, all, contains, leb, ◌≤◌, ◌⊎◌, if◌then◌else◌, string_eq,
  nat_eq,
}
use enterprise_agent_harness.Contracts.{kind_eq, risk_eq}
use enterprise_agent_harness.Governance.Approvals.Reading.{IsLeast}
use enterprise_agent_harness.Governance.Approvals.Policies.{min_of, least_expiry}

lesser : (n m : ℕ) → let k = if leb n m then n else m in ((k ≡ n) ⊎ (k ≡ m)) × (k ≤ n) × (k ≤ m)
lesser n m = ground arith

lesser-IsLeast :
    (n m : ℕ) (ns : List ℕ) (k x : ℕ)
    → (k ≡ n) ⊎ (k ≡ m)
    → k ≤ n
    → k ≤ m
    → contains x (k ∷ ns) ≡ true
    → all (leb x) (k ∷ ns) ≡ true
    → (contains x (n ∷ m ∷ ns) ≡ true) × (all (leb x) (n ∷ m ∷ ns) ≡ true)
lesser-IsLeast n m ns k x same left right found least = ground arith

min_of-IsLeast :
    (n : ℕ) (ns : List ℕ)
    → (contains (min_of n ns) (n ∷ ns) ≡ true) × (all (leb (min_of n ns)) (n ∷ ns) ≡ true)
min_of-IsLeast n [] = ground arith
min_of-IsLeast n (m ∷ ns) =
    let (same, left, right) = lesser n m in
    let (found, least) = min_of-IsLeast (if leb n m then n else m) ns in
    lesser-IsLeast n m ns _ _ same left right found least

pub least_expiry-IsLeast : (ns : List ℕ) → IsLeast (least_expiry ns) ns
least_expiry-IsLeast [] = refl
least_expiry-IsLeast (n ∷ ns) = min_of-IsLeast n ns
