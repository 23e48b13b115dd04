-- ===== src/Background/Leases/Fencing.antt =====
-- How the version of a lease moves while the lease is stored, and that a release forgets it.
use enterprise_agent_harness.Prelude.{ℕ, ◌+◌, String, ◌≡◌, ◌⊎◌, some, arith, string_eq, eq_iff}
use enterprise_agent_harness.Dict.{get, get-put, get-remove, get-remove_self}
use enterprise_agent_harness.Method.{ok}
use enterprise_agent_harness.Background.Leases.{
  Lease, LeaseStore, acquire, renew, release, Call, acquire_call, renew_call, release_call, perform,
}

-- Every entry is stored under its own key.
pub record IsKeyed (leases : LeaseStore) : Type 0 where
  pub at : (k : String) (lease : Lease) → get k leases ≡ some lease → lease.key ≡ k

-- Every call keeps each lease under its own key.
pub perform-IsKeyed : (c : Call) (leases : LeaseStore) → IsKeyed leases → IsKeyed (perform c leases)
unfolding perform acquire renew release
perform-IsKeyed (acquire_call now key caller ttl) leases h = record {
  at = λ k lease. grind (arith, get-put, eq_iff key k, h.at k lease);
}
perform-IsKeyed (renew_call now key caller ttl) leases h = record {
  at = λ k lease. grind (arith, get-put, eq_iff key k, h.at k lease);
}
perform-IsKeyed (release_call key caller) leases h = record {
  at = λ k lease. grind (arith, get-remove, eq_iff key k, h.at k lease);
}

-- One call either leaves a stored lease as it is, or removes it, or replaces it by one whose
-- version is the next number.
pub perform_version :
    (c : Call) (k : String) (leases : LeaseStore) {lease lease' : Lease}
    → get k leases ≡ some lease
    → get k (perform c leases) ≡ some lease'
    → (lease' ≡ lease) ⊎ (lease'.version ≡ lease.version + 1)
unfolding perform acquire renew release
perform_version (acquire_call now key caller ttl) k leases h h' =
    grind (arith, get-put, eq_iff key k)
perform_version (renew_call now key caller ttl) k leases h h' = grind (arith, get-put, eq_iff key k)
perform_version (release_call key caller) k leases h h' = grind (arith, get-remove, eq_iff key k)

-- A lease that its owner releases leaves no trace: the next `acquire` of the key that succeeds
-- starts at version 0 again, whatever version the released lease had.
pub acquire-release :
    (key owner caller : String) (now ttl : ℕ) (leases : LeaseStore) {lease next : Lease}
    → get key leases ≡ some lease
    → lease.owner ≡ owner
    → (acquire now key caller ttl (release key owner leases).1).0 ≡ ok next
    → next.version ≡ 0
unfolding acquire release
acquire-release key owner caller now ttl leases {lease} h same won =
    grind (arith, get-remove_self, eq_iff lease.owner owner)
