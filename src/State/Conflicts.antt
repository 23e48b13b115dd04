-- ===== src/State/Conflicts.antt =====
-- Optimistic concurrency: of two writers that read the same version, one is refused.
use enterprise_agent_harness.Prelude.{
  ℕ, ◌≡◌, ◌≢◌, refl, ap, ◌∙◌, Option, none, some, arith, nat_eq, string_eq,
}
use enterprise_agent_harness.Dict.{get, get-put_self}
use enterprise_agent_harness.Method.{ok, Error}
use enterprise_agent_harness.Contracts.{ExecutionState}
use enterprise_agent_harness.State.Store.{
  Settings, StateStore, StateKey, state_key_eq, key_of, save, save_unless, save_error,
}

module _ (settings : Settings) where
  accepted :
      (error : Option Error) (state : ExecutionState) (s : StateStore)
      → (save_unless settings error state s).0 ≡ ok tt
      → get (key_of state) (save_unless settings error state s).1.states ≡ some state
  accepted none state s h = get-put_self (key_of state) state s.states
  accepted (some e) state s h = absurd (cc)

  refused :
      (error : Option Error) (state : ExecutionState) (s : StateStore)
      → error ≢ none
      → (save_unless settings error state s).0 ≢ ok tt
  refused none state s h same = h refl
  refused (some e) state s h same = absurd (cc)

  -- What is saved is found.
  save-get :
      (state : ExecutionState) (expected : Option ℕ) (s : StateStore)
      → (save settings state expected s).0 ≡ ok tt
      → get (key_of state) (save settings state expected s).1.states ≡ some state
  unfolding save
  save-get state expected s h = accepted _ state s h

  save-stale :
      (state there : ExecutionState) (version : ℕ) (s : StateStore)
      → get (key_of state) s.states ≡ some there
      → there.version ≢ version
      → (save settings state (some version) s).0 ≢ ok tt
  unfolding save
  save-stale state there version s found moved = rw found (
      refused (save_error settings state (some version) (some there)) state s
        (λ h. ground (arith, moved, h)))

  -- A save that moves the version of a state refuses the save of every writer that still expects
  -- the version before it.
  pub save_conflicts :
      (first second : ExecutionState) (version : ℕ) (s : StateStore)
      → key_of second ≡ key_of first
      → first.version ≢ version
      → (save settings first (some version) s).0 ≡ ok tt
      → (save settings second (some version) (save settings first (some version) s).1).0 ≢ ok tt
  save_conflicts first second version s same_key moved h =
      save-stale second first version (save settings first (some version) s).1
        (ap (λ (k : StateKey). get k (save settings first (some version) s).1.states) same_key
          ∙ save-get first (some version) s h)
        moved
