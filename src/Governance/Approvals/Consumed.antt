-- ===== src/Governance/Approvals/Consumed.antt =====
-- An approval is consumed once.
use enterprise_agent_harness.Prelude.{
  ℕ, String, ◌≡◌, refl, true, Option, none, some, List, [], ◌∷◌, contains, arith, Eq, string_eq,
  eq_iff, if_case,
}
use enterprise_agent_harness.Dict.{get, get-put}
use enterprise_agent_harness.Method.{Result, ok, err, value_error}
use enterprise_agent_harness.Contracts.{ApprovalDecisionStatus}
use enterprise_agent_harness.Governance.Approvals.Requests.{
  ApprovalRequest, ApprovalDecision, StatusInput,
}
use enterprise_agent_harness.Governance.Approvals.Broker.{
  Broker, Source, Call, submit_call, get_decision_call, consume_call, decide_call, record_call,
  expire, decision_locked, get_decision, submit_over, submit, consume_decided, consume,
  decide_status, decide_unless, decide_request, decide, record_unless, record_over, record_decision,
  perform, perform_all,
}
use enterprise_agent_harness.Governance.Approvals.Recorded.{
  decision_locked_requests, decision_locked_consumed,
}

module _ {R : Type 0} where
  -- The second broker has every request that the first has, and every consumption.
  pub record Continues (b b' : Broker R) : Type 0 where
    pub request :
        (k : String) (r : ApprovalRequest R)
        → get k b.requests ≡ some r
        → get k b'.requests ≡ some r
    pub consumption : (k : String) → contains k b.consumed ≡ true → contains k b'.consumed ≡ true

  same_book :
      {b b' : Broker R} → b'.requests ≡ b.requests → b'.consumed ≡ b.consumed → Continues b b'
  same_book p q = record { request = λ k r h. cc; consumption = λ k h. cc }

  Continues-self : {b : Broker R} → Continues b b
  Continues-self = same_book refl refl

  Continues-then : {a b c : Broker R} → Continues a b → Continues b c → Continues a c
  Continues-then f g = record {
    request = λ k r h. g.request k r (f.request k r h);
    consumption = λ k h. g.consumption k (f.consumption k h);
  }

module _ {R : Type 0} (source : Source) where
  decision_locked-Continues :
      (id : String) (b : Broker R) → Continues b (decision_locked source id b).1
  decision_locked-Continues id b =
      same_book (decision_locked_requests source id b) (decision_locked_consumed source id b)

  submit-Continues :
      ⦃e : Eq R⦄ (request : ApprovalRequest R) (found : Option (ApprovalRequest R)) (b : Broker R)
      → get request.request_id b.requests ≡ found
      → Continues b (submit_over source found request b).1
  unfolding get_decision
  submit-Continues request none b h =
      Continues-then
        (record {
          request = λ k r. grind (arith, get-put, eq_iff request.request_id k, h);
          consumption = λ k c. c;
        })
        (decision_locked-Continues request.request_id _)
  submit-Continues request (some x) b h =
      if_case (λ (end : Result (Option ApprovalDecision) × Broker R). Continues b end.1) _
        (decision_locked-Continues request.request_id b) Continues-self

  consume-Continues :
      (id : String) (found : Option ApprovalDecision) (b : Broker R)
      → Continues b (consume_decided source id found b).1
  consume-Continues id none b = Continues-self
  consume-Continues id (some d) b =
      if_case (λ (end : Result (Unit {0}) × Broker R). Continues b end.1) _ Continues-self
        (record { request = λ k r h. h; consumption = λ k. ground arith })

  decide_status-Continues :
      (id : String) (r : ApprovalRequest R) (status : Result ApprovalDecisionStatus) (by : String)
      (reason : Option String) (expiry : Option ℕ) (b : Broker R)
      → Continues b (decide_status source status id r by reason expiry b).1
  unfolding expire
  decide_status-Continues id r (err e) by reason expiry b = Continues-self
  decide_status-Continues id r (ok s) by reason expiry b = same_book (ground arith) (ground arith)

  decide_unless-Continues :
      (id : String) (found : Option ApprovalDecision) (r : ApprovalRequest R) (input : StatusInput)
      (by : String) (reason : Option String) (expiry : Option ℕ) (b : Broker R)
      → Continues b (decide_unless source found id r input by reason expiry b).1
  decide_unless-Continues id (some x) r input by reason expiry b = Continues-self
  decide_unless-Continues id none r input by reason expiry b =
      decide_status-Continues id r _ by reason expiry b

  decide_request-Continues :
      (id : String) (found : Option (ApprovalRequest R)) (input : StatusInput) (by : String)
      (reason : Option String) (expiry : Option ℕ) (b : Broker R)
      → Continues b (decide_request source found id input by reason expiry b).1
  decide_request-Continues id none input by reason expiry b = Continues-self
  decide_request-Continues id (some r) input by reason expiry b =
      Continues-then (decision_locked-Continues id b)
        (decide_unless-Continues id _ r input by reason expiry _)

  record_unless-Continues :
      (id : String) (found : Option ApprovalDecision) (new : ApprovalDecision) (b : Broker R)
      → Continues b (record_unless source found id new b).1
  record_unless-Continues id none new b = same_book refl refl
  record_unless-Continues id (some x) new b = Continues-self

  record_over-Continues :
      (found : Option (ApprovalRequest R)) (new : ApprovalDecision) (b : Broker R)
      → Continues b (record_over source found new b).1
  record_over-Continues none new b = Continues-self
  record_over-Continues (some r) new b =
      if_case (λ (end : Result ApprovalDecision × Broker R). Continues b end.1) _ Continues-self
        (Continues-then (decision_locked-Continues r.request_id b)
          (record_unless-Continues r.request_id _ new _))

  perform-Continues : ⦃e : Eq R⦄ (c : Call R) (b : Broker R) → Continues b (perform source c b)
  unfolding perform submit get_decision consume decide record_decision
  perform-Continues (submit_call request) b = submit-Continues request _ b refl
  perform-Continues (get_decision_call id) b = decision_locked-Continues id b
  perform-Continues (consume_call id) b =
      if_case (λ (end : Result (Unit {0}) × Broker R). Continues b end.1) _
        (Continues-then (decision_locked-Continues id b) (consume-Continues id _ _)) Continues-self
  perform-Continues (decide_call id input by reason expiry) b =
      decide_request-Continues id _ input by reason expiry b
  perform-Continues (record_call new) b = record_over-Continues _ new b

  -- No sequence of calls forgets a request, changes one, or undoes a consumption.
  pub perform_all-Continues :
      ⦃e : Eq R⦄ (calls : List (Call R)) (b : Broker R) → Continues b (perform_all source calls b)
  unfolding perform_all
  perform_all-Continues [] b = Continues-self
  perform_all-Continues (c ∷ calls) b =
      Continues-then (perform-Continues c b) (perform_all-Continues calls (perform source c b))

  consume_decided_marks :
      (id : String) (found : Option ApprovalDecision) (b : Broker R) {u : Unit {0}}
      → (consume_decided source id found b).0 ≡ ok u
      → contains id (consume_decided source id found b).1.consumed ≡ true
  consume_decided_marks id none b h = cc
  consume_decided_marks id (some d) b h = ground (arith, eq_iff id id)

  consume_decided_refuses :
      (id : String) (found : Option ApprovalDecision) (b : Broker R)
      → contains id b.consumed ≡ true
      → (consume_decided source id found b).0 ≡ err value_error
  consume_decided_refuses id none b h = refl
  consume_decided_refuses id (some d) b h = ground arith

  consume_marks :
      (id : String) (b : Broker R) {r : ApprovalRequest R} {u : Unit {0}}
      → get id b.requests ≡ some r
      → (consume source id b).0 ≡ ok u
      → contains id (consume source id b).1.consumed ≡ true
  unfolding consume
  consume_marks id b h g = ground (
    arith,
    consume_decided_marks id (decision_locked source id b).0 (decision_locked source id b).1,
  )

  consume_refuses :
      (id : String) (b : Broker R) {r : ApprovalRequest R}
      → get id b.requests ≡ some r
      → contains id b.consumed ≡ true
      → (consume source id b).0 ≡ err value_error
  unfolding consume
  consume_refuses id b h c = ground (
    arith,
    consume_decided_refuses id (decision_locked source id b).0 (decision_locked source id b).1,
    decision_locked_consumed source id b,
  )

  -- A decided request that was consumed cannot be consumed again, whatever calls come between.
  pub consume_once :
      ⦃e : Eq R⦄ (id : String) (b : Broker R) (calls : List (Call R)) {r : ApprovalRequest R}
      → get id b.requests ≡ some r
      → (consume source id b).0 ≡ ok tt
      → (consume source id (perform_all source calls (consume source id b).1)).0 ≡ err value_error
  unfolding perform
  consume_once id b calls h g =
      let kept = perform-Continues (consume_call id) b in
      let later = perform_all-Continues calls (consume source id b).1 in
      consume_refuses id _ (later.request id _ (kept.request id _ h))
        (later.consumption id (consume_marks id b h g))
