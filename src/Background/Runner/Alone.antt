-- ===== src/Background/Runner/Alone.antt =====
-- What a lone worker does with an event whose record is in progress while nobody holds its lease.
use enterprise_agent_harness.Prelude.{
  ℕ, ◌+◌, ◌<◌, String, ◌≡◌, ◌≢◌, refl, ap, ◌∙◌, Bool, false, Option, none, some, [], arith,
  string_eq, eq_iff, blank, nat_eq,
}
use enterprise_agent_harness.Dict.{get, put, remove, get-put_self, get-remove_self}
use enterprise_agent_harness.Method.{Method, Result, ok, err, after, dedup_conflict}
use enterprise_agent_harness.Contracts.{PrincipalContext}
use enterprise_agent_harness.Background.Leases.{Lease, LeaseStore, acquire, release}
use enterprise_agent_harness.Background.Leases
use enterprise_agent_harness.Background.Deduplication
use enterprise_agent_harness.Background.Deduplication.{
  DedupStatus, DedupRecord, DedupStore, mark_in_progress, settled,
}
use enterprise_agent_harness.Background.Events.{EventEnvelope, dedup_key}
use enterprise_agent_harness.Background.Runner.World.{
  Environment, World, read_clock, new_id, yield_turn, on_leases, on_records, unless_conflict,
}
use enterprise_agent_harness.Background.Runner.Results.{lease_conflict_result}
use enterprise_agent_harness.Background.Runner.Attempts.{Job, claim}
use enterprise_agent_harness.Background.Runner.Handle.{answer_conflict, proceed, handle}

-- The record waits for the owner `o` with the version `v`, and the key has no lease.
pub record IsStranded (key o : String) (v : ℕ) (records : DedupStore) (leases : LeaseStore)
    : Type 0 where
  pub held : DedupRecord
  pub found : get key records ≡ some held
  pub working : held.status ≡ DedupStatus.in_progress
  pub owned : held.lease_owner ≡ some o
  pub versioned : held.lease_version ≡ some v
  pub unleased : get key leases ≡ none

-- A claim with the first version of a lease, by another owner, is refused.
first_claim_refused :
    (now : ℕ) (key o execution_id correlation_id owner : String) (v attempt : ℕ) (s : DedupStore)
    (leases : LeaseStore)
    → IsStranded key o v s leases
    → o ≢ owner
    → blank owner ≡ false
    → mark_in_progress now key execution_id attempt correlation_id owner 0 s
      ≡ (err dedup_conflict, s)
unfolding mark_in_progress
first_claim_refused now key o execution_id correlation_id owner v attempt s leases h ne b =
    ground (arith, eq_iff o owner, h.found, h.working, h.owned, h.versioned)

abbrev pub first_lease : ℕ → String → String → ℕ → Lease
first_lease now key owner ttl = record {
  key = key;
  owner = owner;
  expires_at = now + ttl;
  version = 0;
}

pub acquire_first :
    (now : ℕ) (key owner : String) (ttl : ℕ) (s : LeaseStore)
    → get key s ≡ none
    → blank key ≡ false
    → blank owner ≡ false
    → 0 < ttl
    → acquire now key owner ttl s
      ≡ (ok (first_lease now key owner ttl), put key (first_lease now key owner ttl) s)
unfolding acquire
acquire_first now key owner ttl s h bk bo pos = ground arith

pub release_own :
    (key : String) (lease : Lease) (s : LeaseStore)
    → get key s ≡ some lease
    → (release key lease.owner s).1 ≡ remove key s
unfolding release
release_own key lease s h = ground (arith, eq_iff lease.owner lease.owner)

-- The release of the lease that this run acquired over an absent one.
pub release_stranded :
    (key o owner : String) (v now ttl : ℕ) (s : DedupStore) (leases : LeaseStore)
    → IsStranded key o v s leases
    → IsStranded key o v s (release key owner (put key (first_lease now key owner ttl) leases)).1
release_stranded key o owner v now ttl s leases h = record {
  held = h.held;
  found = h.found;
  working = h.working;
  owned = h.owned;
  versioned = h.versioned;
  unleased =
      rw (release_own key (first_lease now key owner ttl) _ (get-put_self key _ leases))
        (get-remove_self key _);
}

module _ {A : Type 0} (env : Environment A)
    (alone : (n : ℕ) → env.schedule n ≡ record { lease_calls = []; record_calls = [] }) where
  pub yield_turn_alone : (w : World A) → yield_turn env w ≡ record w { turns = w.turns + 1 }
  unfolding yield_turn Leases.perform_all Deduplication.perform_all
  yield_turn_alone w = rw alone refl

  pub on_leases_alone :
      {B : Type 0} (m : Method LeaseStore B) (w : World A)
      → on_leases env m w
        ≡ ((m w.leases).0, record w { leases = (m w.leases).1; turns = w.turns + 1 })
  unfolding on_leases
  on_leases_alone m w =
      ap (λ (u : World A). ((m u.leases).0, record u { leases = (m u.leases).1 }))
        (yield_turn_alone w)

  claim_stranded :
      (job : Job) (o execution_id : String) (v attempt : ℕ) (w : World A) (leases : LeaseStore)
      → IsStranded job.key o v w.records leases
      → o ≢ job.lease_owner
      → blank job.lease_owner ≡ false
      → job.lease_version ≡ 0
      → claim env job execution_id attempt w
        ≡ (ok false, record w { ticks = w.ticks + 1; turns = w.turns + 1 })
  unfolding claim unless_conflict on_records read_clock
  claim_stranded job o execution_id v attempt w leases h ne b z =
      rw
        (
          z,
          yield_turn_alone,
          first_claim_refused (env.clock w.ticks) job.key o execution_id _ job.lease_owner v attempt
              w.records leases h ne b,
        )
        refl

  answer_stranded :
      (principal : PrincipalContext) (event : EventEnvelope) (key o : String) (v : ℕ) (w : World A)
      (leases : LeaseStore)
      → IsStranded key o v w.records leases
      → answer_conflict env principal event (get key w.records) w
        ≡ lease_conflict_result env principal event w
  unfolding answer_conflict
  answer_stranded principal event key o v w leases h = rw (h.found, h.working) refl

  proceed_stranded :
      (job : Job) (input_text : Option String) (o : String) (v : ℕ) (w : World A)
      (leases : LeaseStore)
      → IsStranded job.key o v w.records leases
      → proceed env job input_text false w
        ≡ lease_conflict_result env job.principal job.event (record w { turns = w.turns + 1 })
  unfolding proceed on_records
  proceed_stranded job input_text o v w leases h =
      ap (λ (u : World A). answer_conflict env job.principal job.event (get job.key u.records) u)
        (yield_turn_alone w)
      ∙ answer_stranded job.principal job.event job.key o v _ leases h

  pub handle_stranded :
      (principal : PrincipalContext) (event : EventEnvelope) (input_text : Option String)
      (o owner : String) (v : ℕ) (lease : Lease) (w : World A) (leases : LeaseStore)
      → IsStranded (dedup_key env.sha256 event) o v w.records leases
      → o ≢ owner
      → blank owner ≡ false
      → lease.version ≡ 0
      → handle env principal event input_text owner lease w
        ≡ lease_conflict_result env principal event
            (record w { ids = w.ids + 1; ticks = w.ticks + 1; turns = w.turns + 1 + 1 })
  unfolding handle new_id
  handle_stranded principal event input_text o owner v lease w leases h ne b z =
      let start : Job = record {
        principal = principal;
        event = event;
        key = dedup_key env.sha256 event;
        input_text = "";
        lease_owner = owner;
        lease_version = lease.version;
        first_execution_id = env.id_factory w.ids "execution";
      } in
      ap (λ (c : Result Bool × World A). after c.0 (proceed env start input_text) c.1)
        (claim_stranded start o (env.id_factory w.ids "execution") v 0
          (record w { ids = w.ids + 1 }) leases h ne b z)
      ∙ proceed_stranded start input_text o v _ leases h
