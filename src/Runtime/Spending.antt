-- ===== src/Runtime/Spending.antt =====
-- A number of things granted, out of a number that may be unbounded.
use enterprise_agent_harness.Prelude.{ℕ, ◌+◌, ◌≤◌, ◌≡◌, Option, none, some, arith, nat_eq}

-- Of what was left, so much was granted and so much is left.
abbrev pub Spends : ℕ → Option ℕ → Option ℕ → Type 0
Spends n none after_it = Unit
Spends n (some left) none = ⊥
Spends n (some left) (some rest) = n + rest ≤ left

abbrev pub Within : Option ℕ → ℕ → Type 0
Within none n = Unit
Within (some most) n = n ≤ most

pub Spends-Within :
    (left rest : Option ℕ) (n m : ℕ) → Spends n left rest → Within rest m → Within left (n + m)
Spends-Within none rest n m first second = tt
Spends-Within (some left) none n m first second = absurd first
Spends-Within (some left) (some rest) n m first second = omega arith

pub Spends-none : (left : Option ℕ) → Spends 0 left left
Spends-none none = tt
Spends-none (some left) = omega arith

pub Within-from : (left most : Option ℕ) (n : ℕ) → left ≡ most → Within left n → Within most n
Within-from left most n h within = rw h at within

pub Spends-from :
    (n : ℕ) (left before rest : Option ℕ)
    → left ≡ before
    → Spends n left rest
    → Spends n before rest
Spends-from n left before rest h spent = rw⁻¹ h spent
