-- ===== src/Prelude/Lists.antt =====
-- Lists measured by native numbers, and Python's `in`, `any`, `all` and comprehension filter.
use Prim.Native.Nat.{ℕ, suc, ◌+◌}
use mathlib.Core.Path.{◌≡◌, refl, ap}
use mathlib.Core.Bool.{Bool, true, false, not, ◌&&◌, ◌||◌}
use mathlib.Core.List.{List, [], ◌∷◌, ◌++◌}
use native.Mathlib.Omega.{arith}
use enterprise_agent_harness.Prelude.Tests.{if◌then◌else◌}
use enterprise_agent_harness.Prelude.Classes.{Eq, ◌==◌}

pub append_nil {ℓ} : {A : Type ℓ} (xs : List A) → xs ++ [] ≡ xs
append_nil [] = refl
append_nil {A = A} (x ∷ xs) = ap (λ (ys : List A). x ∷ ys) (append_nil xs)

pub append_assoc {ℓ} : {A : Type ℓ} (xs ys zs : List A) → (xs ++ ys) ++ zs ≡ xs ++ (ys ++ zs)
append_assoc [] ys zs = refl
append_assoc {A = A} (x ∷ xs) ys zs = ap (λ (us : List A). x ∷ us) (append_assoc xs ys zs)

module _ {ℓ} {A : Type ℓ} where
  abbrev pub length : List A → ℕ
  length [] = 0
  length (x ∷ xs) = suc (length xs)

  pub length-append : (xs ys : List A) → length (xs ++ ys) ≡ length xs + length ys
  length-append [] ys = omega arith
  length-append (x ∷ xs) ys = omega (arith, length-append xs ys)

  -- Truth of a Python sequence.
  abbrev pub nonempty : List A → Bool
  nonempty [] = false
  nonempty (x ∷ xs) = true

  abbrev pub any : (A → Bool) → List A → Bool
  any p [] = false
  any p (x ∷ xs) = p x || any p xs

  abbrev pub all : (A → Bool) → List A → Bool
  all p [] = true
  all p (x ∷ xs) = p x && all p xs

  -- `[x for x in xs if p(x)]`
  abbrev pub keep : (A → Bool) → List A → List A
  keep p [] = []
  keep p (x ∷ xs) = let rest = keep p xs in if p x then x ∷ rest else rest

module _ {ℓ} {A : Type ℓ} ⦃e : Eq A⦄ where
  -- `a in xs`
  abbrev pub contains : A → List A → Bool
  contains a [] = false
  contains a (x ∷ xs) = x == a || contains a xs

  -- `len(xs) == len(set(xs))`
  abbrev pub unique : List A → Bool
  unique [] = true
  unique (x ∷ xs) = not (contains x xs) && unique xs

  -- `set(xs).issubset(ys)`
  abbrev pub subset : List A → List A → Bool
  subset [] ys = true
  subset (x ∷ xs) ys = contains x ys && subset xs ys

  -- `[x for x in xs if x not in ys]`, the order of the first argument kept.
  abbrev pub difference : List A → List A → List A
  difference [] ys = []
  difference (x ∷ xs) ys = let rest = difference xs ys in if contains x ys then rest else x ∷ rest
