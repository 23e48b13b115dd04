-- ===== src/Background/Leases.antt =====
-- background/leases.py: the in-memory lease store. The lock makes every method one step; an
-- instant and a duration are whole microseconds (a duration is not negative), and `now` is what
-- the clock reads in the call. The constant `schema_version` is left out.
pub mod Exclusion
pub mod Fencing
use enterprise_agent_harness.Prelude.{
  ℕ, ◌+◌, String, Bool, false, ◌&&◌, ◌||◌, not, Option, none, some, List, [], ◌∷◌, blank, leb, ltb,
  nat_eq, string_eq, ◌==◌, if◌then◌else◌,
}
use enterprise_agent_harness.Dict.{Dict, get, put, remove}
use enterprise_agent_harness.Method.{
  Method, value_error, lease_conflict, lease_expired, pure, raise, gets, or_raise, raise_if, modify,
  ◌>>=◌, ◌>>◌,
}

pub record Lease : Type 0 where
  pub key : String
  pub owner : String
  pub expires_at : ℕ
  pub version : ℕ

abbrev pub LeaseStore : Type 0
LeaseStore = Dict String Lease

-- `existing.expires_at > now and existing.owner != owner`
abbrev pub held_by_other : ℕ → String → Option Lease → Bool
held_by_other now owner none = false
held_by_other now owner (some lease) = ltb now lease.expires_at && not (lease.owner == owner)

abbrev pub next_version : Option Lease → ℕ
next_version none = 0
next_version (some lease) = lease.version + 1

unfoldable pub acquire : ℕ → String → String → ℕ → Method LeaseStore Lease
acquire now key owner ttl = do
  raise_if (blank key || blank owner) value_error
  raise_if (ttl == 0) value_error
  existing ← gets (get key)
  raise_if (held_by_other now owner existing) lease_conflict
  let lease : Lease = record {
    key = key;
    owner = owner;
    expires_at = now + ttl;
    version = next_version existing;
  }
  modify (put key lease)
  pure lease

unfoldable pub renew : ℕ → String → String → ℕ → Method LeaseStore Lease
renew now key owner ttl = do
  found ← gets (get key)
  existing ← or_raise found lease_expired
  raise_if (not (existing.owner == owner)) lease_conflict
  raise_if (leb existing.expires_at now) lease_expired
  let lease : Lease = record {
    key = key;
    owner = owner;
    expires_at = now + ttl;
    version = existing.version + 1;
  }
  modify (put key lease)
  pure lease

abbrev release_found : String → String → Option Lease → Method LeaseStore (Unit {0})
release_found key owner none = pure tt
release_found key owner (some existing) = do
  raise_if (not (existing.owner == owner)) lease_conflict
  modify (remove key)

unfoldable pub release : String → String → Method LeaseStore (Unit {0})
release key owner = do existing ← gets (get key); release_found key owner existing

-- `InMemoryLeaseStore.get`
abbrev pub get_lease : String → LeaseStore → Option Lease
get_lease key leases = get key leases

-- One call of the store by some worker, at the instant that its clock reads.
pub data Call : Type 0 where
  acquire_call renew_call : ℕ → String → String → ℕ → Call
  release_call : String → String → Call

unfoldable pub perform : Call → LeaseStore → LeaseStore
perform (acquire_call now key owner ttl) leases = (acquire now key owner ttl leases).1
perform (renew_call now key owner ttl) leases = (renew now key owner ttl leases).1
perform (release_call key owner) leases = (release key owner leases).1

unfoldable pub perform_all : List Call → LeaseStore → LeaseStore
perform_all [] leases = leases
perform_all (c ∷ calls) leases = perform_all calls (perform c leases)
