-- ===== src/Background/Runner/Stranded.antt =====
-- An event whose record is in progress while nobody holds its lease: `run` never handles it again.
use mathlib.Core.Path.{subst}
use enterprise_agent_harness.Prelude.{
  ℕ, ◌+◌, ◌<◌, String, ◌≡◌, ◌≢◌, refl, sym, false, Option, none, some, [], string_eq, blank, nat_eq,
}
use enterprise_agent_harness.Dict.{get, put}
use enterprise_agent_harness.Method.{Method, Result, ok, err, after}
use enterprise_agent_harness.Contracts.{PrincipalContext}
use enterprise_agent_harness.Background.Leases.{Lease, LeaseStore, acquire, release}
use enterprise_agent_harness.Background.Events.{EventDisposition, EventEnvelope, dedup_key}
use enterprise_agent_harness.Background.Runner.World.{
  Environment, World, JobResult, read_clock, new_id, on_leases, on_records, audit_record,
  unless_leased, caught_lease,
}
use enterprise_agent_harness.Background.Runner.Results.{lease_conflict_result}
use enterprise_agent_harness.Background.Runner.Handle.{finally, hold, contend, enter, dispatch, run}
use enterprise_agent_harness.Background.Runner.Alone.{
  IsStranded, first_lease, acquire_first, release_stranded, yield_turn_alone, on_leases_alone,
  handle_stranded,
}

abbrev pub disposition : Result JobResult → Option EventDisposition
disposition (ok j) = some j.disposition
disposition (err e) = none

-- What a refused run answers and leaves behind, of a world where the application is `app`.
pub record IsRefused {A : Type 0} (key o : String) (v : ℕ) (app : A)
    (r : Result JobResult × World A) : Type 0 where
  pub answer : disposition r.0 ≡ some EventDisposition.lease_conflict
  pub untouched : r.1.app ≡ app
  pub stranded : IsStranded key o v r.1.records r.1.leases

module _ {A : Type 0} (env : Environment A)
    (alone : (n : ℕ) → env.schedule n ≡ record { lease_calls = []; record_calls = [] }) where
  hold_stranded :
      (principal : PrincipalContext) (event : EventEnvelope) (input_text : Option String)
      (o owner : String) (v now : ℕ) (w : World A) (leases : LeaseStore)
      → IsStranded (dedup_key env.sha256 event) o v w.records leases
      → w.leases
        ≡ put
            (dedup_key env.sha256 event)
            (first_lease now (dedup_key env.sha256 event) owner env.lease_ttl)
            leases
      → o ≢ owner
      → blank owner ≡ false
      → IsRefused (dedup_key env.sha256 event) o v w.app (
          hold env principal event input_text owner
            (some (first_lease now (dedup_key env.sha256 event) owner env.lease_ttl))
            w)
  unfolding hold finally lease_conflict_result audit_record
  hold_stranded principal event input_text o owner v now w leases h same ne b =
      let key = dedup_key env.sha256 event in
      let lease = first_lease now key owner env.lease_ttl in
      let after_handle : World A = record w {
        ids = w.ids + 1;
        ticks = w.ticks + 1;
        turns = w.turns + 1 + 1;
      } in
      let c = lease_conflict_result env principal event after_handle in
      subst
        (λ (u : Result JobResult × World A).
          IsRefused key o v w.app (u.0, (on_leases env (release key owner) u.1).1))
        (sym (
          handle_stranded env alone principal event input_text o owner v lease w leases h ne b
            refl))
        (subst (λ (u : Result (Unit {0}) × World A). IsRefused key o v w.app (c.0, u.1))
          (sym (on_leases_alone env alone (release key owner) c.1))
          (record {
            answer = refl;
            untouched = refl;
            stranded =
                subst (λ (l : LeaseStore). IsStranded key o v w.records (release key owner l).1)
                  (sym same) (release_stranded key o owner v now env.lease_ttl w.records leases h);
          }))

  contend_stranded :
      (principal : PrincipalContext) (event : EventEnvelope) (input_text : Option String)
      (o owner : String) (v : ℕ) (w : World A)
      → IsStranded (dedup_key env.sha256 event) o v w.records w.leases
      → o ≢ owner
      → blank (dedup_key env.sha256 event) ≡ false
      → blank owner ≡ false
      → 0 < env.lease_ttl
      → IsRefused
          (dedup_key env.sha256 event)
          o
          v
          w.app
          (contend env principal event input_text owner w)
  unfolding contend unless_leased read_clock
  contend_stranded principal event input_text o owner v w h ne bk bo pos =
      let key = dedup_key env.sha256 event in
      let now = env.clock w.ticks in
      let ticked : World A = record w { ticks = w.ticks + 1 } in
      let won : Method LeaseStore Lease = acquire now key owner env.lease_ttl in
      let lease = first_lease now key owner env.lease_ttl in
      subst
        (λ (u : Result Lease × World A).
          IsRefused key o v w.app
            (after (caught_lease u.0) (hold env principal event input_text owner) u.1))
        (sym (on_leases_alone env alone won ticked))
        (subst
          (λ (u : Result Lease × LeaseStore). IsRefused key o v w.app (
            after (caught_lease u.0) (hold env principal event input_text owner)
              (record ticked { leases = u.1; turns = w.turns + 1 })))
          (sym (acquire_first now key owner env.lease_ttl w.leases h.unleased bk bo pos))
          (hold_stranded principal event input_text o owner v now _ w.leases h refl ne bo))

  enter_stranded :
      (principal : PrincipalContext) (event : EventEnvelope) (input_text : Option String)
      (o : String) (v : ℕ) (w : World A) (leases : LeaseStore)
      → IsStranded (dedup_key env.sha256 event) o v w.records leases
      → dispatch env principal event input_text (get (dedup_key env.sha256 event) w.records) w
        ≡ enter env principal event input_text w
  unfolding dispatch
  enter_stranded principal event input_text o v w leases h = rw (h.found, h.working) refl

  -- Let the record of an event be in progress for the owner `o`, while no lease is stored for the
  -- event, and no other worker runs. A run that draws another owner's name answers
  -- `lease_conflict`, does not call the handler, and leaves the event in the same state: no later
  -- run handles it either.
  pub run_stranded :
      (principal : PrincipalContext) (event : EventEnvelope) (input_text : Option String)
      (o : String) (v : ℕ) (w : World A)
      → IsStranded (dedup_key env.sha256 event) o v w.records w.leases
      → o ≢ env.id_factory w.ids "lease"
      → blank (dedup_key env.sha256 event) ≡ false
      → blank (env.id_factory w.ids "lease") ≡ false
      → 0 < env.lease_ttl
      → IsRefused (dedup_key env.sha256 event) o v w.app (run env principal event input_text w)
  unfolding run enter on_records new_id
  run_stranded principal event input_text o v w h ne bk bo pos =
      let key = dedup_key env.sha256 event in
      subst
        (λ (u : World A).
          IsRefused key o v w.app (dispatch env principal event input_text (get key u.records) u))
        (sym (yield_turn_alone env alone w))
        (subst (λ (r : Result JobResult × World A). IsRefused key o v w.app r)
          (sym (
            enter_stranded principal event input_text o v (record w { turns = w.turns + 1 })
              w.leases h))
          (contend_stranded principal event input_text o (env.id_factory w.ids "lease") v
            (record w { ids = w.ids + 1; turns = w.turns + 1 }) h ne bk bo pos))
