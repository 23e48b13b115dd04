-- ===== src/Method.antt =====
-- A Python method on an object: it returns or raises, and what it wrote before a raise stays
-- written. The exceptions are the classes of the source, without their messages.
use enterprise_agent_harness.Prelude.{String, ◌≡◌, refl, Bool, Option, none, some, if◌then◌else◌}

pub data Error : Type 0 where
  -- Python's own
  value_error key_error index_error assertion_error : Error
  -- background/leases.py and background/deduplication.py
  lease_conflict lease_expired dedup_conflict : Error
  -- state/store.py
  state_ownership state_conflict : Error
  -- errors.py, as raised by runtime/control.py
  budget_exhausted execution_cancelled execution_timeout : Error
  -- tools/definitions.py: the `code` of a `ToolInvocationError`
  tool_invocation : String → Error
  -- composition.py
  delegation_error delegation_authority delegation_cycle delegation_depth composition_error : Error
  -- registries.py
  registry_error duplicate_registration stale_registration registry_lifecycle : Error
  -- whatever an extension of the application raises
  extension_error : Error

pub data Result {ℓ} (A : Type ℓ) : Type ℓ where
  ok : A → Result A
  err : Error → Result A

abbrev pub Method {ℓ κ} : Type ℓ → Type κ → Type (ℓ ⊔ κ)
Method S A = S → Result A × S

module _ {ℓ κ} {S : Type ℓ} {A : Type κ} where
  abbrev pub pure : A → Method S A
  pure a s = (ok a, s)

  abbrev pub raise : Error → Method S A
  raise e s = (err e, s)

  abbrev pub gets : (S → A) → Method S A
  gets f s = (ok (f s), s)

  abbrev pub or_raise : Option A → Error → Method S A
  or_raise none e = raise e
  or_raise (some a) e = pure a

module _ {ℓ κ μ} {S : Type ℓ} {A : Type κ} {B : Type μ} where
  abbrev pub after : Result A → (A → Method S B) → Method S B
  after (ok a) f s = f a s
  after (err e) f s = (err e, s)

  infixl 5 ◌>>=◌
  abbrev pub ◌>>=◌ : Method S A → (A → Method S B) → Method S B
  ◌>>=◌ m f s = after (m s).0 f (m s).1

infixl 5 ◌>>◌
abbrev pub ◌>>◌ {ℓ κ} : {S : Type ℓ} {B : Type κ} → Method S (Unit {0}) → Method S B → Method S B
m >> k = m >>= λ _. k

module _ {ℓ} {S : Type ℓ} where
  abbrev pub raise_if : Bool → Error → Method S (Unit {0})
  raise_if c e s = (if c then err e else ok tt, s)

  abbrev pub modify : (S → S) → Method S (Unit {0})
  modify f s = (ok tt, f s)

-- What holds of a raise and of every continuation holds of the whole.
pub after_case {ℓ κ μ ν} :
    {S : Type ℓ} {A : Type κ} {B : Type μ} (P : Result B × S → Type ν) (r : Result A)
    (f : A → Method S B) (s : S)
    → ((e : Error) → P (err e, s))
    → ((a : A) → r ≡ ok a → P (f a s))
    → P (after r f s)
after_case P (ok a) f s raises goes = goes a refl
after_case P (err e) f s raises goes = raises e
