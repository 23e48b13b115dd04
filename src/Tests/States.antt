-- ===== src/Tests/States.antt =====
-- The state store at a concrete state.
use enterprise_agent_harness.Prelude.{◌≢◌, refl, none, some, [], ◌∷◌, beq_distinct, nat_eq}
use enterprise_agent_harness.Dict.{get, put}
use enterprise_agent_harness.Method.{ok}
use enterprise_agent_harness.Contracts.{ExecutionStateStatus, ExecutionState, PrincipalContext}
use enterprise_agent_harness.State.Store.{
  Settings, StateStore, state_key_eq, key_of, get_or_create, find_execution, save,
}
use enterprise_agent_harness.State.Ownership.{
  saving, Owned, Found, BelongsAs, perform_all, states_isolated, perform_all-BelongsAs,
}
use enterprise_agent_harness.State.Conflicts.{save_conflicts}

abbrev settings : Settings
settings = record { clock = λ n. n; utc_now = λ n. n; ttl_seconds = none; retention_hook = none }

abbrev ada : PrincipalContext
ada = record { principal_id = "ada"; tenant_id = "acme"; session_id = "s1" }

abbrev state : ExecutionState
state = record {
  state_id = "s1";
  execution_id = "state_s1";
  agent_id = "triage";
  agent_version = "1.0.0";
  principal_id = "ada";
  tenant_id = "acme";
  session_id = "s1";
  status = ExecutionStateStatus.pending;
  version = 0;
  data_json = "{}";
  updated_at = 0;
}

abbrev stored : StateStore
stored = record { states = (key_of state, state) ∷ []; clock_reads = 0 }

abbrev next : ExecutionState
next = record state { version = 1 }

states_isolated_example :
    Owned settings ada "1.0.0" (get_or_create settings ada "triage" "1.0.0" none stored).0
    × Found settings ada "state_s1" (find_execution settings ada "state_s1" stored).0
states_isolated_example = states_isolated settings ada "triage" "1.0.0" "state_s1" none stored

perform_all-BelongsAs_example : BelongsAs settings state (
    get
      (key_of state)
      (perform_all settings
        (saving next (some 0) ∷ saving (record state { principal_id = "bob" }) none ∷ [])
        stored).states)
unfolding get
perform_all-BelongsAs_example =
    perform_all-BelongsAs settings
      (saving next (some 0) ∷ saving (record state { principal_id = "bob" }) none ∷ [])
      (key_of state) state stored refl

save_conflicts_example :
    (save settings next (some 0) (save settings next (some 0) stored).1).0 ≢ ok tt
unfolding get put save
save_conflicts_example =
    save_conflicts settings next next 0 stored refl (beq_distinct 1 0 refl) refl
