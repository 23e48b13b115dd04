-- ===== src/Background/Leases/Exclusion.antt =====
-- A live lease excludes every other owner.
use enterprise_agent_harness.Prelude.{
  ℕ, ◌+◌, ◌<◌, String, ◌≡◌, sym, ◌≢◌, false, some, List, [], ◌∷◌, arith, string_eq, eq_iff, blank,
}
use enterprise_agent_harness.Dict.{get, get-put, get-remove, get-put_self}
use enterprise_agent_harness.Method.{ok, err, lease_conflict}
use enterprise_agent_harness.Background.Leases.{
  Lease, LeaseStore, acquire, renew, release, Call, acquire_call, renew_call, release_call, perform,
  perform_all,
}

-- A call that a worker other than `owner` makes before the instant `expires`.
abbrev pub IsForeign : String → ℕ → Call → Type 0
IsForeign owner expires (acquire_call now key caller ttl) = (caller ≢ owner) × (now < expires)
IsForeign owner expires (renew_call now key caller ttl) = (caller ≢ owner) × (now < expires)
IsForeign owner expires (release_call key caller) = caller ≢ owner

abbrev pub AllForeign : String → ℕ → List Call → Type 0
AllForeign owner expires [] = Unit {0}
AllForeign owner expires (c ∷ calls) = IsForeign owner expires c × AllForeign owner expires calls

perform_foreign :
    (k : String) (lease : Lease) (c : Call) (leases : LeaseStore)
    → get k leases ≡ some lease
    → IsForeign lease.owner lease.expires_at c
    → get k (perform c leases) ≡ some lease
unfolding perform acquire renew release
perform_foreign k lease (acquire_call now key caller ttl) leases held h =
    grind (arith, get-put, eq_iff key k, eq_iff lease.owner caller)
perform_foreign k lease (renew_call now key caller ttl) leases held h =
    grind (arith, get-put, eq_iff key k, eq_iff lease.owner caller)
perform_foreign k lease (release_call key caller) leases held h =
    grind (arith, get-remove, eq_iff key k, eq_iff lease.owner caller)

perform_all_foreign :
    (k : String) (lease : Lease) (calls : List Call) (leases : LeaseStore)
    → get k leases ≡ some lease
    → AllForeign lease.owner lease.expires_at calls
    → get k (perform_all calls leases) ≡ some lease
unfolding perform_all
perform_all_foreign k lease [] leases held h = held
perform_all_foreign k lease (c ∷ calls) leases held (h, hs) =
    perform_all_foreign k lease calls (perform c leases) (perform_foreign k lease c leases held h)
      hs

-- What a successful `acquire` returns is what it stores.
pub get-acquire :
    (now : ℕ) (key owner : String) (ttl : ℕ) (leases : LeaseStore) {lease : Lease}
    → (acquire now key owner ttl leases).0 ≡ ok lease
    → (get key (acquire now key owner ttl leases).1 ≡ some lease)
      × (lease.owner ≡ owner)
      × (lease.expires_at ≡ now + ttl)
unfolding acquire
get-acquire now key owner ttl leases h = grind (arith, get-put_self)

acquire_refused :
    (now : ℕ) (key caller : String) (ttl : ℕ) (leases : LeaseStore) {lease : Lease}
    → get key leases ≡ some lease
    → lease.owner ≢ caller
    → now < lease.expires_at
    → blank key ≡ false
    → blank caller ≡ false
    → 0 < ttl
    → acquire now key caller ttl leases ≡ (err lease_conflict, leases)
unfolding acquire
acquire_refused now key caller ttl leases {lease} held ne live bk bc pos =
    ground (arith, eq_iff lease.owner caller)

-- Once `owner` has acquired a lease on `key`, whatever calls the other workers make before it
-- expires, an `acquire` by another owner before then raises the conflict and changes nothing.
pub acquire_excludes :
    (now : ℕ) (key owner : String) (ttl : ℕ) (leases : LeaseStore) {lease : Lease}
    → (calls : List Call) (later : ℕ) (caller : String) (caller_ttl : ℕ)
    → (acquire now key owner ttl leases).0 ≡ ok lease
    → AllForeign owner (now + ttl) calls
    → caller ≢ owner
    → later < now + ttl
    → blank key ≡ false
    → blank caller ≡ false
    → 0 < caller_ttl
    → let leases' = perform_all calls (acquire now key owner ttl leases).1 in
      acquire later key caller caller_ttl leases' ≡ (err lease_conflict, leases')
acquire_excludes now key owner ttl leases {lease} calls later caller caller_ttl won foreign ne live
      bk bc pos =
    let (held, same, expiry) = get-acquire now key owner ttl leases won in
    acquire_refused later key caller caller_ttl _
      (perform_all_foreign key lease calls _ held (rw (same, expiry) foreign))
      (rw same (λ e. ne (sym e))) (rw expiry live) bk bc pos
