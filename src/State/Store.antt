-- ===== src/State/Store.antt =====
-- state/store.py: `InMemoryStateStore`. A state is a value here, as the store copies it in and out.
-- Times and the TTL are counts of one unit. The n-th reading of a clock gives `clock n` for the
-- store's own clock and `utc_now n` for the one that stamps a new state; a reading without a time
-- zone, which the store refuses, is left out.
use Prim.Native.String.{◌++◌ as append}
use enterprise_agent_harness.Prelude.{
  ℕ, ◌+◌, String, Bool, false, ◌&&◌, ◌||◌, not, Option, none, some, List, [], ◌∷◌, keep, length,
  is_some, ltb, leb, ◌==◌, Eq, nat_eq, string_eq, option_eq, pair_eq, if◌then◌else◌,
}
use enterprise_agent_harness.Dict.{Dict, get, put, values}
use enterprise_agent_harness.Method.{Method, ok, err, Error, state_ownership, state_conflict}
use enterprise_agent_harness.Contracts.{ExecutionStateStatus, ExecutionState, PrincipalContext}

-- Tenant, session, agent, state.
abbrev pub StateKey : Type 0
StateKey = String × (String × (String × String))

instance abbrev pub state_key_eq : Eq StateKey
state_key_eq = pair_eq ⦃f = pair_eq ⦃f = pair_eq⦄⦄

-- The arguments of the constructor.
pub record Settings : Type 0 where
  pub clock : ℕ → ℕ
  pub utc_now : ℕ → ℕ
  pub ttl_seconds : Option ℕ
  pub retention_hook : Option (ExecutionState → Bool)

pub record StateStore : Type 0 where
  pub states : Dict StateKey ExecutionState
  pub clock_reads : ℕ

-- `_assert_owner`
abbrev pub is_owner : PrincipalContext → ExecutionState → Bool
is_owner principal state =
    state.principal_id == principal.principal_id
    && state.tenant_id == principal.tenant_id
    && state.session_id == principal.session_id

-- `_assert_same_owner`
abbrev pub same_owner : ExecutionState → ExecutionState → Bool
same_owner left right =
    left.principal_id == right.principal_id
    && left.tenant_id == right.tenant_id
    && left.session_id == right.session_id

-- `state_id or principal.session_id`
abbrev pub resolved_id : Option String → PrincipalContext → String
resolved_id none principal = principal.session_id
resolved_id (some id) principal = if id == "" then principal.session_id else id

abbrev pub key_for : PrincipalContext → String → Option String → StateKey
key_for principal agent_id state_id =
    (principal.tenant_id, (principal.session_id, (agent_id, resolved_id state_id principal)))

abbrev pub key_of : ExecutionState → StateKey
key_of state = (state.tenant_id, (state.session_id, (state.agent_id, state.state_id)))

module _ (settings : Settings) where
  -- The default of `updated_at` is the moment of the call.
  abbrev pub fresh_state : PrincipalContext → String → String → Option String → ℕ → ExecutionState
  fresh_state principal agent_id agent_version state_id now = record {
    state_id = resolved_id state_id principal;
    execution_id = append "state_" (resolved_id state_id principal);
    agent_id = agent_id;
    agent_version = agent_version;
    principal_id = principal.principal_id;
    tenant_id = principal.tenant_id;
    session_id = principal.session_id;
    status = ExecutionStateStatus.pending;
    version = 0;
    data_json = "{}";
    updated_at = now;
  }

  -- `get_or_create`, with the state that is there or has just been made.
  abbrev pub get_owned :
      PrincipalContext → String → ExecutionState → Method StateStore ExecutionState
  get_owned principal agent_version state s =
      if not (is_owner principal state)
      then (err state_ownership, s)
      else if not (state.agent_version == agent_version)
      then (err state_conflict, s)
      else (ok state, s)

  abbrev pub get_or_make :
      PrincipalContext
      → String
      → String
      → Option String
      → Option ExecutionState
      → Method StateStore ExecutionState
  get_or_make principal agent_id agent_version state_id (some state) s =
      get_owned principal agent_version state s
  get_or_make principal agent_id agent_version state_id none s =
      let state =
        fresh_state principal agent_id agent_version state_id (settings.utc_now s.clock_reads) in
      get_owned principal agent_version state (record {
        states = put (key_for principal agent_id state_id) state s.states;
        clock_reads = s.clock_reads + 1;
      })

  unfoldable pub get_or_create :
      PrincipalContext → String → String → Option String → Method StateStore ExecutionState
  get_or_create principal agent_id agent_version state_id s =
      get_or_make principal agent_id agent_version state_id
        (get (key_for principal agent_id state_id) s.states) s

  -- What `save` raises over the state that is there.
  abbrev pub is_stale : Option ℕ → ℕ → Bool
  is_stale none version = false
  is_stale (some expected) version = not (version == expected)

  abbrev pub save_error : ExecutionState → Option ℕ → Option ExecutionState → Option Error
  save_error state expected none =
      if not (state.version == 0)
      then some state_conflict
      else if is_stale expected 0
      then some state_conflict
      else none
  save_error state expected (some existing) =
      if not (same_owner existing state)
      then some state_ownership
      else if is_stale expected existing.version
      then some state_conflict
      else if not (is_some expected) && ltb state.version existing.version
      then some state_conflict
      else none

  abbrev pub save_unless : Option Error → ExecutionState → Method StateStore (Unit {0})
  save_unless (some e) state s = (err e, s)
  save_unless none state s = (ok tt, record s { states = put (key_of state) state s.states })

  unfoldable pub save : ExecutionState → Option ℕ → Method StateStore (Unit {0})
  save state expected s =
      save_unless (save_error state expected (get (key_of state) s.states)) state s

  -- `max` by version and time: the first of the greatest.
  abbrev pub is_newer : ExecutionState → ExecutionState → Bool
  is_newer a b = ltb b.version a.version || a.version == b.version && ltb b.updated_at a.updated_at

  abbrev pub newest : ExecutionState → List ExecutionState → ExecutionState
  newest best [] = best
  newest best (state ∷ states) = newest (if is_newer state best then state else best) states

  abbrev pub newest_of : List ExecutionState → Option ExecutionState
  newest_of [] = none
  newest_of (state ∷ states) = some (newest state states)

  unfoldable pub find_execution :
      PrincipalContext → String → Method StateStore (Option ExecutionState)
  find_execution principal execution_id s = (
    ok (
        newest_of (
          keep (λ state. state.execution_id == execution_id && is_owner principal state)
            (values s.states))),
    s,
  )

  -- `_should_purge`
  abbrev pub is_past_ttl : Option ℕ → ℕ → ExecutionState → Bool
  is_past_ttl none now state = false
  is_past_ttl (some ttl) now state = leb (state.updated_at + ttl) now

  abbrev pub is_unretained : Option (ExecutionState → Bool) → ExecutionState → Bool
  is_unretained none state = false
  is_unretained (some hook) state = not (hook state)

  abbrev pub should_purge : ℕ → ExecutionState → Bool
  should_purge now state =
      is_past_ttl settings.ttl_seconds now state || is_unretained settings.retention_hook state

  -- `_aware_now`: the clock is read only when no moment is given.
  abbrev pub moment : Option ℕ → Method StateStore ℕ
  moment (some now) s = (ok now, s)
  moment none s = (ok (settings.clock s.clock_reads), record s { clock_reads = s.clock_reads + 1 })

  abbrev pub purge_at : ℕ → Method StateStore ℕ
  purge_at now s = (
    ok (length (keep (λ entry. should_purge now entry.1) s.states)),
    record s { states = keep (λ entry. not (should_purge now entry.1)) s.states },
  )

  unfoldable pub purge_expired : Option ℕ → Method StateStore ℕ
  purge_expired (some now) s = purge_at now s
  purge_expired none s =
      purge_at (settings.clock s.clock_reads) (record s { clock_reads = s.clock_reads + 1 })
