-- ===== src/Governance/Approvals/Recorded.antt =====
-- A request and a decision, once stored, never change.
use enterprise_agent_harness.Prelude.{
  ℕ, String, ◌≡◌, refl, ap, Option, none, some, List, [], ◌∷◌, arith, if_case, Eq, string_eq,
  eq_iff,
}
use enterprise_agent_harness.Dict.{get, get-put}
use enterprise_agent_harness.Method.{Result, ok, err}
use enterprise_agent_harness.Contracts.{ApprovalDecisionStatus}
use enterprise_agent_harness.Governance.Approvals.Requests.{
  ApprovalRequest, ApprovalDecision, StatusInput,
}
use enterprise_agent_harness.Governance.Approvals.Broker.{
  Broker, Source, Call, submit_call, get_decision_call, consume_call, decide_call, record_call,
  expire, current, decision_locked, get_decision, submit_over, submit, consume_decided, consume,
  decide_status, decide_unless, decide_request, decide, record_unless, record_over, record_decision,
  perform, perform_all,
}

module _ {R : Type 0} (source : Source) where
  -- The entry of a key that is decided is left alone by an attempt to expire any key.
  current_keeps :
      (id k : String) (decided : Option ApprovalDecision) (request : Option (ApprovalRequest R))
      (b : Broker R) {d : ApprovalDecision}
      → get id b.decisions ≡ decided
      → get k b.decisions ≡ some d
      → get k (current source id decided request b).1.decisions ≡ some d
  unfolding expire
  current_keeps id k (some x) request b h g = g
  current_keeps id k none none b h g = g
  current_keeps id k none (some r) b h g = grind (arith, get-put, eq_iff id k)

  pub decision_locked_keeps :
      (id k : String) (b : Broker R) {d : ApprovalDecision}
      → get k b.decisions ≡ some d
      → get k (decision_locked source id b).1.decisions ≡ some d
  unfolding decision_locked
  decision_locked_keeps id k b g =
      current_keeps id k (get id b.decisions) (get id b.requests) b refl g

  current_requests :
      (id : String) (decided : Option ApprovalDecision) (request : Option (ApprovalRequest R))
      (b : Broker R)
      → (current source id decided request b).1.requests ≡ b.requests
  unfolding expire
  current_requests id (some x) request b = refl
  current_requests id none none b = refl
  current_requests id none (some r) b = ground arith

  pub decision_locked_requests :
      (id : String) (b : Broker R) → (decision_locked source id b).1.requests ≡ b.requests
  unfolding decision_locked
  decision_locked_requests id b = current_requests id (get id b.decisions) (get id b.requests) b

  current_consumed :
      (id : String) (decided : Option ApprovalDecision) (request : Option (ApprovalRequest R))
      (b : Broker R)
      → (current source id decided request b).1.consumed ≡ b.consumed
  unfolding expire
  current_consumed id (some x) request b = refl
  current_consumed id none none b = refl
  current_consumed id none (some r) b = ground arith

  pub decision_locked_consumed :
      (id : String) (b : Broker R) → (decision_locked source id b).1.consumed ≡ b.consumed
  unfolding decision_locked
  decision_locked_consumed id b = current_consumed id (get id b.decisions) (get id b.requests) b

  -- The lookup of a decided key answers the decision and changes nothing.
  pub decision_locked_decided :
      (id : String) (b : Broker R) {d : ApprovalDecision}
      → get id b.decisions ≡ some d
      → decision_locked source id b ≡ (some d, b)
  unfolding decision_locked
  decision_locked_decided id b g = ap (λ o. current source id o (get id b.requests) b) g

  -- What the lookup finds is stored afterwards.
  current_stored :
      (id : String) (decided : Option ApprovalDecision) (request : Option (ApprovalRequest R))
      (b : Broker R)
      → get id b.decisions ≡ decided
      → get id (current source id decided request b).1.decisions
        ≡ (current source id decided request b).0
  unfolding expire
  current_stored id (some x) request b h = h
  current_stored id none none b h = h
  current_stored id none (some r) b h = grind (arith, get-put, eq_iff id id)

  pub decision_locked_stored :
      (id : String) (b : Broker R)
      → get id (decision_locked source id b).1.decisions ≡ (decision_locked source id b).0
  unfolding decision_locked
  decision_locked_stored id b = current_stored id (get id b.decisions) (get id b.requests) b refl

  submit_keeps :
      ⦃e : Eq R⦄ (request : ApprovalRequest R) (k : String) (found : Option (ApprovalRequest R))
      (b : Broker R) {d : ApprovalDecision}
      → get k b.decisions ≡ some d
      → get k (submit_over source found request b).1.decisions ≡ some d
  unfolding get_decision
  submit_keeps request k none b g = decision_locked_keeps request.request_id k _ g
  submit_keeps request k (some x) b g =
      ground (arith, decision_locked_keeps request.request_id k b g)

  consume_keeps :
      (id k : String) (found : Option ApprovalDecision) (b : Broker R) {d : ApprovalDecision}
      → get k b.decisions ≡ some d
      → get k (consume_decided source id found b).1.decisions ≡ some d
  consume_keeps id k none b g = g
  consume_keeps id k (some x) b g = ground arith

  decide_keeps :
      (id k : String) (r : ApprovalRequest R) (status : Result ApprovalDecisionStatus) (by : String)
      (reason : Option String) (expiry : Option ℕ) (b : Broker R) {d : ApprovalDecision}
      → get id b.decisions ≡ none
      → get k b.decisions ≡ some d
      → get k (decide_status source status id r by reason expiry b).1.decisions ≡ some d
  unfolding expire
  decide_keeps id k r (err e) by reason expiry b h g = g
  decide_keeps id k r (ok s) by reason expiry b h g = grind (arith, get-put, eq_iff id k)

  decide_unless_keeps :
      (id k : String) (found : Option ApprovalDecision) (r : ApprovalRequest R)
      (input : StatusInput) (by : String) (reason : Option String) (expiry : Option ℕ)
      (b : Broker R) {d : ApprovalDecision}
      → get id b.decisions ≡ found
      → get k b.decisions ≡ some d
      → get k (decide_unless source found id r input by reason expiry b).1.decisions ≡ some d
  decide_unless_keeps id k (some x) r input by reason expiry b h g = g
  decide_unless_keeps id k none r input by reason expiry b h g =
      decide_keeps id k r _ by reason expiry b h g

  decide_request_keeps :
      (id k : String) (found : Option (ApprovalRequest R)) (input : StatusInput) (by : String)
      (reason : Option String) (expiry : Option ℕ) (b : Broker R) {d : ApprovalDecision}
      → get k b.decisions ≡ some d
      → get k (decide_request source found id input by reason expiry b).1.decisions ≡ some d
  decide_request_keeps id k none input by reason expiry b g = g
  decide_request_keeps id k (some r) input by reason expiry b g =
      decide_unless_keeps id k _ r input by reason expiry _ (decision_locked_stored id b)
        (decision_locked_keeps id k b g)

  record_unless_keeps :
      (id k : String) (found : Option ApprovalDecision) (new : ApprovalDecision) (b : Broker R)
      {d : ApprovalDecision}
      → get id b.decisions ≡ found
      → get k b.decisions ≡ some d
      → get k (record_unless source found id new b).1.decisions ≡ some d
  record_unless_keeps id k (some x) new b h g = g
  record_unless_keeps id k none new b h g = grind (arith, get-put, eq_iff id k)

  record_over_keeps :
      (k : String) (found : Option (ApprovalRequest R)) (new : ApprovalDecision) (b : Broker R)
      {d : ApprovalDecision}
      → get k b.decisions ≡ some d
      → get k (record_over source found new b).1.decisions ≡ some d
  record_over_keeps k none new b g = g
  record_over_keeps k (some r) new b {d} g =
      if_case (λ (end : Result ApprovalDecision × Broker R). get k end.1.decisions ≡ some d) _ g
        (record_unless_keeps r.request_id k _ new _ (decision_locked_stored r.request_id b)
          (decision_locked_keeps r.request_id k b g))

  perform_decided :
      ⦃e : Eq R⦄ (c : Call R) (k : String) (b : Broker R) {d : ApprovalDecision}
      → get k b.decisions ≡ some d
      → get k (perform source c b).decisions ≡ some d
  unfolding perform submit get_decision consume decide record_decision
  perform_decided (submit_call request) k b g = submit_keeps request k _ b g
  perform_decided (get_decision_call id) k b g = decision_locked_keeps id k b g
  perform_decided (consume_call id) k b {d} g =
      if_case (λ (end : Result (Unit {0}) × Broker R). get k end.1.decisions ≡ some d) _
        (consume_keeps id k _ _ (decision_locked_keeps id k b g)) g
  perform_decided (decide_call id input by reason expiry) k b g =
      decide_request_keeps id k _ input by reason expiry b g
  perform_decided (record_call new) k b g = record_over_keeps k _ new b g

  -- A decision, once recorded, stands: whatever is submitted, decided, recorded, read or consumed
  -- afterwards, the decision of the request is the same.
  pub perform_all_decided :
      ⦃e : Eq R⦄ (calls : List (Call R)) (k : String) (b : Broker R) {d : ApprovalDecision}
      → get k b.decisions ≡ some d
      → get k (perform_all source calls b).decisions ≡ some d
  unfolding perform_all
  perform_all_decided [] k b g = g
  perform_all_decided (c ∷ calls) k b g =
      perform_all_decided calls k (perform source c b) (perform_decided c k b g)
