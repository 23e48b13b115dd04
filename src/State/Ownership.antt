-- ===== src/State/Ownership.antt =====
-- Who is given a state: only the principal, tenant and session that it belongs to.
use enterprise_agent_harness.Prelude.{
  ℕ, String, ◌≡◌, refl, inl, inr, Bool, true, ◌&&◌, not, Option, none, some, List, [], ◌∷◌, arith,
  keep, all, ◌==◌, string_eq, eq_iff, beq_refl, Bool-cases, Option-cases, if_case, if_split,
  if◌then◌else◌,
}
use enterprise_agent_harness.Dict.{Dict, get, put, values, get-put}
use enterprise_agent_harness.Method.{Result, ok, err, Error}
use enterprise_agent_harness.Contracts.{ExecutionState, PrincipalContext}
use enterprise_agent_harness.State.Store.{
  Settings, StateStore, StateKey, state_key_eq, is_owner, same_owner, key_for, key_of, get_owned,
  get_or_make, get_or_create, newest, newest_of, find_execution, is_newer, save, save_unless,
  save_error, fresh_state,
}

module _ (settings : Settings) where
  abbrev pub Owned : PrincipalContext → String → Result ExecutionState → Type 0
  Owned principal agent_version (err e) = Unit
  Owned principal agent_version (ok state) =
      (is_owner principal state ≡ true) × (state.agent_version ≡ agent_version)

  get_owned-Owned :
      (principal : PrincipalContext) (agent_version : String) (state : ExecutionState)
      (s : StateStore)
      → Owned principal agent_version (get_owned settings principal agent_version state s).0
  get_owned-Owned principal agent_version state s =
      if_split (λ (x : Result ExecutionState × StateStore). Owned principal agent_version x.0)
        (not (is_owner principal state)) (λ other. tt)
        (λ owned.
          if_split (λ (x : Result ExecutionState × StateStore). Owned principal agent_version x.0)
            (not (state.agent_version == agent_version)) (λ other. tt)
            (λ same. (ground (arith, owned), (eq_iff _ _).0 (ground (arith, same)))))

  get_or_make-Owned :
      (principal : PrincipalContext) (agent_id agent_version : String) (state_id : Option String)
      (found : Option ExecutionState) (s : StateStore)
      → Owned principal agent_version
          (get_or_make settings principal agent_id agent_version state_id found s).0
  get_or_make-Owned principal agent_id agent_version state_id none s =
      get_owned-Owned principal agent_version _ _
  get_or_make-Owned principal agent_id agent_version state_id (some state) s =
      get_owned-Owned principal agent_version state s

  all_kept :
      (p q : ExecutionState → Bool) (states : List ExecutionState)
      → ((x : ExecutionState) → p x ≡ true → q x ≡ true)
      → all q (keep p states) ≡ true
  all_kept p q [] h = refl
  all_kept p q (x ∷ states) h =
      if_split (λ (kept : List ExecutionState). all q kept ≡ true) (p x)
        (λ i. let first = h x i in let rest = all_kept p q states h in ground (arith, first, rest))
        (λ i. all_kept p q states h)

  newest-all :
      (q : ExecutionState → Bool) (best : ExecutionState) (states : List ExecutionState)
      → q best ≡ true
      → all q states ≡ true
      → q (newest settings best states) ≡ true
  newest-all q best [] h rest = h
  newest-all q best (x ∷ states) h rest =
      newest-all q (if is_newer settings x best then x else best) states
        (if_case (λ b. q b ≡ true) (is_newer settings x best) (ground (arith, rest)) h)
        (ground (arith, rest))

  abbrev pub Found : PrincipalContext → String → Result (Option ExecutionState) → Type 0
  Found principal execution_id (err e) = Unit
  Found principal execution_id (ok none) = Unit
  Found principal execution_id (ok (some state)) =
      (is_owner principal state ≡ true) × (state.execution_id ≡ execution_id)

  newest_of-Found :
      (principal : PrincipalContext) (execution_id : String) (states : List ExecutionState)
      → all (λ state. is_owner principal state) states ≡ true
      → all (λ state. state.execution_id == execution_id) states ≡ true
      → Found principal execution_id (ok (newest_of settings states))
  newest_of-Found principal execution_id [] owned named = tt
  newest_of-Found principal execution_id (x ∷ states) owned named = (
    newest-all (λ state. is_owner principal state) x states (ground (arith, owned))
        (ground (arith, owned)),
    (eq_iff _ _).0 (
        newest-all (λ state. state.execution_id == execution_id) x states (ground (arith, named))
          (ground (arith, named))),
  )

  -- Whatever the store holds, a principal is only given states of its own: by `get_or_create` in the
  -- agent version asked for, by `find_execution` under the execution asked for.
  pub states_isolated :
      (principal : PrincipalContext) (agent_id agent_version execution_id : String)
      (state_id : Option String) (s : StateStore)
      → Owned principal agent_version
          (get_or_create settings principal agent_id agent_version state_id s).0
        × Found principal execution_id (find_execution settings principal execution_id s).0
  unfolding get_or_create find_execution
  states_isolated principal agent_id agent_version execution_id state_id s =
      let wanted : ExecutionState → Bool =
        λ state. state.execution_id == execution_id && is_owner principal state in
      (
        get_or_make-Owned principal agent_id agent_version state_id _ s,
        newest_of-Found principal execution_id (keep wanted (values s.states))
            (all_kept wanted (λ state. is_owner principal state) (values s.states)
              (λ x h. ground (arith, h)))
            (all_kept wanted (λ state. state.execution_id == execution_id) (values s.states)
              (λ x h. ground (arith, h))),
      )

  -- The calls that write states.
  pub data Call : Type 0 where
    getting : PrincipalContext → String → String → Option String → Call
    saving : ExecutionState → Option ℕ → Call

  abbrev pub perform : Call → StateStore → StateStore
  perform (getting principal agent_id agent_version state_id) s =
      (get_or_create settings principal agent_id agent_version state_id s).1
  perform (saving state expected) s = (save settings state expected s).1

  abbrev pub perform_all : List Call → StateStore → StateStore
  perform_all [] s = s
  perform_all (call ∷ calls) s = perform_all calls (perform call s)

  abbrev pub BelongsAs : ExecutionState → Option ExecutionState → Type 0
  BelongsAs state none = ⊥
  BelongsAs state (some later) = same_owner state later ≡ true

  belongs_still :
      (key : StateKey) (state : ExecutionState) (states : Dict StateKey ExecutionState)
      → get key states ≡ some state
      → BelongsAs state (get key states)
  belongs_still key state states h = rw h (
      ground
        (arith, beq_refl state.principal_id, beq_refl state.tenant_id, beq_refl state.session_id))

  put-BelongsAs :
      (at key : StateKey) (new state : ExecutionState) (states : Dict StateKey ExecutionState)
      → get key states ≡ some state
      → (at ≡ key → same_owner state new ≡ true)
      → BelongsAs state (get key (put at new states))
  put-BelongsAs at key new state states h same =
      rw (get-put at key new states) (elim (Bool-cases (at == key)) [
        | inl e ↦ rw e (same ((state_key_eq.equal_iff at key).0 e))
        | inr e ↦ rw e (belongs_still key state states h)
      ])

  get_owned-states :
      (principal : PrincipalContext) (agent_version : String) (state : ExecutionState)
      (s : StateStore)
      → (get_owned settings principal agent_version state s).1 ≡ s
  get_owned-states principal agent_version state s =
      if_case (λ (x : Result ExecutionState × StateStore). x.1 ≡ s) (not (is_owner principal state))
        refl
        (if_case (λ (x : Result ExecutionState × StateStore). x.1 ≡ s)
          (not (state.agent_version == agent_version)) refl refl)

  make-BelongsAs :
      (principal : PrincipalContext) (agent_id agent_version : String) (state_id : Option String)
      (found : Option ExecutionState) (key : StateKey) (state : ExecutionState) (s : StateStore)
      → get (key_for principal agent_id state_id) s.states ≡ found
      → get key s.states ≡ some state
      → BelongsAs state (
          get key (get_or_make settings principal agent_id agent_version state_id found s).1.states)
  make-BelongsAs principal agent_id agent_version state_id (some there) key state s at h =
      rw (get_owned-states principal agent_version there s) (belongs_still key state s.states h)
  make-BelongsAs principal agent_id agent_version state_id none key state s at h =
      let new =
        fresh_state settings principal agent_id agent_version state_id
          (settings.utc_now s.clock_reads) in
      rw (get_owned-states principal agent_version new _) (
        put-BelongsAs (key_for principal agent_id state_id) key new state s.states h
          (λ same. absurd (let none_there : get key s.states ≡ none = rw⁻¹ same at in cc)))

  save_unless-BelongsAs :
      (error : Option Error) (new : ExecutionState) (key : StateKey) (state : ExecutionState)
      (s : StateStore)
      → get key s.states ≡ some state
      → (error ≡ none → key_of new ≡ key → same_owner state new ≡ true)
      → BelongsAs state (get key (save_unless settings error new s).1.states)
  save_unless-BelongsAs none new key state s h same =
      put-BelongsAs (key_of new) key new state s.states h (same refl)
  save_unless-BelongsAs (some e) new key state s h same = belongs_still key state s.states h

  saved_over :
      (new : ExecutionState) (expected : Option ℕ) (state : ExecutionState)
      → save_error settings new expected (some state) ≡ none
      → same_owner state new ≡ true
  saved_over new expected state h = ground (arith, h)

  perform-BelongsAs :
      (call : Call) (key : StateKey) (state : ExecutionState) (s : StateStore)
      → get key s.states ≡ some state
      → BelongsAs state (get key (perform call s).states)
  unfolding get_or_create save
  perform-BelongsAs (getting principal agent_id agent_version state_id) key state s h =
      make-BelongsAs principal agent_id agent_version state_id _ key state s refl h
  perform-BelongsAs (saving new expected) key state s h =
      save_unless-BelongsAs _ new key state s h (λ accepted same.
        let there : get (key_of new) s.states ≡ some state = rw same h in
        saved_over new expected state (rw there at accepted))

  BelongsAs-trans :
      (state middle : ExecutionState) (last : Option ExecutionState)
      → BelongsAs state (some middle)
      → BelongsAs middle last
      → BelongsAs state last
  BelongsAs-trans state middle none first second = second
  BelongsAs-trans state middle (some last) first second = ground (
    arith,
    first,
    second,
    eq_iff state.principal_id middle.principal_id,
    eq_iff state.tenant_id middle.tenant_id,
    eq_iff state.session_id middle.session_id,
  )

  -- The owner of a stored state never changes: after any calls that write, the state is still there
  -- and belongs to the same principal, tenant and session.
  pub perform_all-BelongsAs :
      (calls : List Call) (key : StateKey) (state : ExecutionState) (s : StateStore)
      → get key s.states ≡ some state
      → BelongsAs state (get key (perform_all calls s).states)
  perform_all-BelongsAs [] key state s h = belongs_still key state s.states h
  perform_all-BelongsAs (call ∷ calls) key state s h =
      elim (Option-cases (get key (perform call s).states)) [
        | inl gone ↦ absurd (rw gone at (perform-BelongsAs call key state s h))
        | inr (middle, there) ↦
            BelongsAs-trans state middle _ (rw there at (perform-BelongsAs call key state s h))
              (perform_all-BelongsAs calls key middle (perform call s) there)
      ]
