-- ===== src/Background/Deduplication/Terminal.antt =====
-- A terminal record is final.
use enterprise_agent_harness.Prelude.{
  ℕ, String, ◌≡◌, ◌≢◌, true, false, inl, inr, Option, some, List, [], ◌∷◌, arith, string_eq,
  option_eq, nat_eq, eq_iff, ◌==◌, Bool-cases, Option-cases,
}
use enterprise_agent_harness.Dict.{get, get-put, get-put_self}
use enterprise_agent_harness.Method.{ok}
use enterprise_agent_harness.Contracts.{AgentOutcome}
use enterprise_agent_harness.Background.Deduplication.{
  DedupStatus, DedupRecord, DedupStore, is_terminal, claim_matches, ended_record, status_eq,
  status_beq_iff, put_record, mark_in_progress, mark_pending_approval, mark_terminal, Call,
  put_call, progress_call, pending_call, terminal_call, perform, perform_all,
}

-- The record of the key has reached the terminal status.
abbrev pub Ended : String → DedupStatus → DedupStore → Type 0
Ended key status s =
    (r : DedupRecord) × (get key s ≡ some r) × (r.status ≡ status) × (is_terminal status ≡ true)

-- The calls that `BackgroundJobRunner` makes: all but `put`.
abbrev pub IsMark : Call → Type 0
IsMark (put_call r) = ⊥
IsMark _ = Unit {0}

abbrev pub AllMarks : List Call → Type 0
AllMarks [] = Unit {0}
AllMarks (c ∷ calls) = IsMark c × AllMarks calls

pub perform_mark :
    (c : Call) (key : String) (r : DedupRecord) (s : DedupStore)
    → IsMark c
    → get key s ≡ some r
    → is_terminal r.status ≡ true
    → get key (perform c s) ≡ some r
unfolding perform mark_in_progress mark_pending_approval mark_terminal
perform_mark (put_call x) key r s m h t = elim m [ ]
perform_mark (progress_call now k execution_id attempt correlation_id owner version) key r s m h t =
    grind (arith, get-put, eq_iff k key)
perform_mark (pending_call now k execution_id owner version outcome) key r s m h t =
    grind (arith, get-put, eq_iff k key)
perform_mark (terminal_call now k status outcome execution_id owner version) key r s m h t =
    grind (arith, get-put, eq_iff k key)

-- The `mark_*` calls, in any number and by any workers, leave a terminal record exactly as it is.
pub perform_all_mark :
    (calls : List Call) (key : String) (r : DedupRecord) (s : DedupStore)
    → AllMarks calls
    → get key s ≡ some r
    → is_terminal r.status ≡ true
    → get key (perform_all calls s) ≡ some r
unfolding perform_all
perform_all_mark [] key r s m h t = h
perform_all_mark (c ∷ calls) key r s (m, ms) h t =
    perform_all_mark calls key r (perform c s) ms (perform_mark c key r s m h t) t

perform_Ended :
    (c : Call) (key : String) (status : DedupStatus) (s : DedupStore)
    → Ended key status s
    → Ended key status (perform c s)
unfolding perform put_record
perform_Ended (put_call p) key status s (r, h, e, t) =
    elim (Bool-cases (p.deduplication_key == key)) [
      | inl same ↦ elim (Bool-cases (r.status == p.status)) [
        | inl equal ↦ (
          p,
          ground (
            arith,
            get-put p.deduplication_key key p s,
            eq_iff p.deduplication_key key,
            status_beq_iff r.status p.status,
          ),
          ground (arith, status_beq_iff r.status p.status),
          t,
        )
        | inr other ↦ (
          r,
          ground (
            arith,
            get-put p.deduplication_key key p s,
            eq_iff p.deduplication_key key,
            status_beq_iff r.status p.status,
          ),
          e,
          t,
        )
      ]
      | inr other ↦ (r, grind (arith, get-put), e, t)
    ]
perform_Ended (progress_call now k execution_id attempt correlation_id owner version) key status s
      (r, h, e, t) =
    (
      r,
      perform_mark (progress_call now k execution_id attempt correlation_id owner version) key r s
          tt h (rw e t),
      e,
      t,
    )
perform_Ended (pending_call now k execution_id owner version outcome) key status s (r, h, e, t) = (
  r,
  perform_mark (pending_call now k execution_id owner version outcome) key r s tt h (rw e t),
  e,
  t,
)
perform_Ended (terminal_call now k st outcome execution_id owner version) key status s
      (r, h, e, t) =
    (
      r,
      perform_mark (terminal_call now k st outcome execution_id owner version) key r s tt h
          (rw e t),
      e,
      t,
    )

-- Whatever calls follow, `put` among them, a key that has reached a terminal status keeps that
-- status.
pub perform_all_Ended :
    (calls : List Call) (key : String) (status : DedupStatus) (s : DedupStore)
    → Ended key status s
    → Ended key status (perform_all calls s)
unfolding perform_all
perform_all_Ended [] key status s h = h
perform_all_Ended (c ∷ calls) key status s h =
    perform_all_Ended calls key status (perform c s) (perform_Ended c key status s h)

-- What a successful `mark_terminal` has found and written.
pub mark_terminal_commits :
    (now : ℕ) (key : String) (status : DedupStatus) (outcome : Option AgentOutcome)
    (execution_id owner : String) (version : ℕ) (s : DedupStore)
    → (mark_terminal now key status outcome execution_id owner version s).0 ≡ ok tt
    → (existing : DedupRecord) × (get key s ≡ some existing)
      × (claim_matches existing execution_id owner version ≡ true)
      × (is_terminal existing.status ≡ false)
      × (is_terminal status ≡ true)
      × (get key (mark_terminal now key status outcome execution_id owner version s).1
          ≡ some (ended_record now key status outcome execution_id owner version existing))
unfolding mark_terminal
mark_terminal_commits now key status outcome execution_id owner version s h =
    elim (Option-cases (get key s)) [
      | inl absent ↦ absurd (ground arith)
      | inr (existing, found) ↦
          (existing, found, ground arith, ground arith, ground arith, grind (arith, get-put_self))
    ]

ended_refuses :
    (now : ℕ) (key : String) (status : DedupStatus) (outcome : Option AgentOutcome)
    (execution_id owner : String) (version : ℕ) (s : DedupStore) (r : DedupRecord)
    → get key s ≡ some r
    → is_terminal r.status ≡ true
    → (mark_terminal now key status outcome execution_id owner version s).0 ≢ ok tt
unfolding mark_terminal
ended_refuses now key status outcome execution_id owner version s r h t = ground arith

-- Of two calls of `mark_terminal` for a key, with any claims and whatever `mark_*` calls stand
-- between them, at most one succeeds.
pub mark_terminal_once :
    (now : ℕ) (key : String) (status : DedupStatus) (outcome : Option AgentOutcome)
    (execution_id owner : String) (version : ℕ) (s : DedupStore) (calls : List Call) (later : ℕ)
    (status' : DedupStatus) (outcome' : Option AgentOutcome) (execution_id' owner' : String)
    (version' : ℕ)
    → (mark_terminal now key status outcome execution_id owner version s).0 ≡ ok tt
    → AllMarks calls
    → let s' =
        perform_all calls (mark_terminal now key status outcome execution_id owner version s).1 in
      (mark_terminal later key status' outcome' execution_id' owner' version' s').0 ≢ ok tt
mark_terminal_once now key status outcome execution_id owner version s calls later status' outcome'
      execution_id' owner' version' won marks =
    let (existing, _, _, _, ended, held) =
      mark_terminal_commits now key status outcome execution_id owner version s won in
    let r = ended_record now key status outcome execution_id owner version existing in
    ended_refuses later key status' outcome' execution_id' owner' version' _ r
      (perform_all_mark calls key r _ marks held ended) ended
