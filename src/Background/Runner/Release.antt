-- ===== src/Background/Runner/Release.antt =====
-- The `finally` of `run`: no run leaves its own lease behind.
use enterprise_agent_harness.Prelude.{
  ℕ, ◌<◌, String, ◌≡◌, ◌≢◌, refl, false, Bool, ◌==◌, Option, none, some, arith, string_eq, eq_iff,
  blank,
}
use enterprise_agent_harness.Dict.{get, get-remove_self}
use enterprise_agent_harness.Method.{Error, lease_conflict, Result, ok, err, after}
use enterprise_agent_harness.Contracts.{PrincipalContext}
use enterprise_agent_harness.Background.Leases.{Lease, LeaseStore, acquire, release}
use enterprise_agent_harness.Background.Events.{EventEnvelope, dedup_key}
use enterprise_agent_harness.Background.Runner.World.{
  Environment, World, read_clock, on_leases, audit_record, unless_leased, caught_lease,
}
use enterprise_agent_harness.Background.Runner.Results.{lease_conflict_result}
use enterprise_agent_harness.Background.Runner.Handle.{finally, hold, contend}

-- Nobody of this name holds the key.
abbrev pub IsFree : String → String → LeaseStore → Type 0
IsFree key owner leases = (lease : Lease) → get key leases ≡ some lease → lease.owner ≢ owner

abbrev pub is_held_by : String → Option Lease → Bool
is_held_by owner none = false
is_held_by owner (some lease) = lease.owner == owner

not_held :
    (owner : String) (held : Option Lease)
    → ((lease : Lease) → held ≡ some lease → lease.owner ≢ owner)
    → is_held_by owner held ≡ false
not_held owner none free = refl
not_held owner (some lease) free =
    let no = free lease refl in ground (arith, eq_iff lease.owner owner, no)

release-IsFree : (key owner : String) (s : LeaseStore) → IsFree key owner (release key owner s).1
unfolding release
release-IsFree key owner s lease = grind (arith, get-remove_self, eq_iff lease.owner owner)

acquire_lost :
    (now : ℕ) (key owner : String) (ttl : ℕ) (s : LeaseStore)
    → (acquire now key owner ttl s).0 ≡ err lease_conflict
    → IsFree key owner (acquire now key owner ttl s).1
unfolding acquire
acquire_lost now key owner ttl s h lease = ground (arith, eq_iff lease.owner owner)

acquire_errors :
    (now : ℕ) (key owner : String) (ttl : ℕ) (s : LeaseStore) (e : Error)
    → blank key ≡ false
    → blank owner ≡ false
    → 0 < ttl
    → (acquire now key owner ttl s).0 ≡ err e
    → e ≡ lease_conflict
unfolding acquire
acquire_errors now key owner ttl s e bk bo pos h = ground arith

module _ {A : Type 0} (env : Environment A) (principal : PrincipalContext)
    (event : EventEnvelope) where
  hold-IsFree :
      (input_text : Option String) (owner : String) (won : Result Lease) (w : World A)
      → (won ≡ err lease_conflict → IsFree (dedup_key env.sha256 event) owner w.leases)
      → ((e : Error) → won ≡ err e → e ≡ lease_conflict)
      → IsFree
          (dedup_key env.sha256 event)
          owner
          (after (caught_lease won) (hold env principal event input_text owner) w).1.leases
  unfolding hold finally on_leases lease_conflict_result audit_record
  hold-IsFree input_text owner (ok lease) w lost only =
      release-IsFree (dedup_key env.sha256 event) owner _
  hold-IsFree input_text owner (err lease_conflict) w lost only = lost refl
  hold-IsFree input_text owner (err e) w lost only = absurd (grind (arith, only e refl))

  contend-IsFree :
      (input_text : Option String) (owner : String) (w : World A)
      → blank (dedup_key env.sha256 event) ≡ false
      → blank owner ≡ false
      → 0 < env.lease_ttl
      → IsFree
          (dedup_key env.sha256 event)
          owner
          (contend env principal event input_text owner w).1.leases
  unfolding contend unless_leased on_leases read_clock
  contend-IsFree input_text owner w bk bo pos =
      hold-IsFree input_text owner _ _ (acquire_lost _ _ _ _ _)
        (λ e. acquire_errors _ _ _ _ _ e bk bo pos)

  -- Whatever happens after the lease has been asked for under an owner's name, a success, a
  -- conflict, a failure or an exception of the handler, no lease of that owner is left on the key.
  pub contend_releases :
      (input_text : Option String) (owner : String) (w : World A)
      → blank (dedup_key env.sha256 event) ≡ false
      → blank owner ≡ false
      → 0 < env.lease_ttl
      → is_held_by owner (
          get
            (dedup_key env.sha256 event)
            (contend env principal event input_text owner w).1.leases)
        ≡ false
  contend_releases input_text owner w bk bo pos =
      not_held owner _ (contend-IsFree input_text owner w bk bo pos)
