-- ===== src/Governance/Approvals/Sound.antt =====
-- Every recorded decision is evidence for the exact action of a submitted request.
use enterprise_agent_harness.Prelude.{
  ℕ, String, ◌≡◌, refl, ap, ◌∙◌, inl, inr, Bool-cases, Bool, true, false, Option, none, some, List,
  [], ◌∷◌, arith, Eq, string_eq, eq_iff, if_case, if◌then◌else◌,
}
use enterprise_agent_harness.Dict.{get}
use enterprise_agent_harness.Method.{Result, ok, err, value_error}
use enterprise_agent_harness.Contracts.{ApprovalDecisionStatus}
use enterprise_agent_harness.Governance.Approvals.Requests.{
  ApprovalRequest, ApprovalDecision, StatusInput, is_expired, is_later, is_approved_status,
  resolved,
}
use enterprise_agent_harness.Governance.Approvals.Broker.{
  Broker, empty_broker, Source, Call, submit_call, get_decision_call, consume_call, decide_call,
  record_call, expire, contradicts, store, now, tick, decision_of, decide_at, get_decision,
  submit_over, submit, consume_decided, consume, decide_status, decide_unless, decide_request,
  decide, record_unless, record_over, record_decision, perform, perform_all,
}
use enterprise_agent_harness.Governance.Approvals.Recorded.{decision_locked_requests}
use enterprise_agent_harness.Governance.Approvals.Evidence.{
  Answers, IsSound, put-IsSound, same-IsSound, added-IsSound, expire-IsSound,
  decision_locked-IsSound,
}

module _ {R : Type 0} (source : Source) where
  submit-IsSound :
      ⦃e : Eq R⦄ (request : ApprovalRequest R) (found : Option (ApprovalRequest R)) (b : Broker R)
      → IsSound b
      → get request.request_id b.requests ≡ found
      → IsSound (submit_over source found request b).1
  unfolding get_decision
  submit-IsSound request none b s h =
      decision_locked-IsSound source request.request_id _ (added-IsSound request b s h)
  submit-IsSound request (some x) b s h =
      if_case (λ (end : Result (Option ApprovalDecision) × Broker R). IsSound end.1) _
        (decision_locked-IsSound source request.request_id b s) s

  consume-IsSound :
      (id : String) (found : Option ApprovalDecision) (b : Broker R)
      → IsSound b
      → IsSound (consume_decided source id found b).1
  consume-IsSound id none b s = s
  consume-IsSound id (some d) b s =
      if_case (λ (end : Result (Unit {0}) × Broker R). IsSound end.1) _ s (same-IsSound s refl refl)

  branches-IsSound :
      (gone approves late over : Bool) (id : String) (r : ApprovalRequest R)
      (approval refusal : ApprovalDecision) (b : Broker R)
      → IsSound b
      → get id b.requests ≡ some r
      → approval.action_digest ≡ r.action_digest
      → refusal.action_digest ≡ r.action_digest
      → IsSound
          (if gone
            then expire source id r b
            else if approves
            then (if late
                then (err value_error, b)
                else if over
                then expire source id r b
                else store source id approval b)
            else store source id refusal b).1
  branches-IsSound true approves late over id r d d' b s h p q = expire-IsSound source id r b s h
  branches-IsSound false true true over id r d d' b s h p q = s
  branches-IsSound false true false true id r d d' b s h p q = expire-IsSound source id r b s h
  branches-IsSound false true false false id r d d' b s h p q = put-IsSound id r d s h p refl refl
  branches-IsSound false false late over id r d d' b s h p q = put-IsSound id r d' s h q refl refl

  decide_at-IsSound :
      (at : ℕ) (id : String) (r : ApprovalRequest R) (status : ApprovalDecisionStatus) (by : String)
      (reason : Option String) (expiry : Option ℕ) (b : Broker R)
      → IsSound b
      → get id b.requests ≡ some r
      → IsSound (decide_at source at id r status by reason expiry b).1
  decide_at-IsSound at id r status by reason expiry b s h =
      let expires = resolved expiry r.expires_at in
      branches-IsSound (is_expired r.expires_at at) (is_approved_status status)
        (is_later expires r.expires_at) (is_expired expires at) id r
        (decision_of source r status by reason expires at b)
        (decision_of source r status by reason expiry at b) b s h refl refl

  decide_status-IsSound :
      (id : String) (r : ApprovalRequest R) (status : Result ApprovalDecisionStatus) (by : String)
      (reason : Option String) (expiry : Option ℕ) (b : Broker R)
      → IsSound b
      → get id b.requests ≡ some r
      → IsSound (decide_status source status id r by reason expiry b).1
  decide_status-IsSound id r (err e) by reason expiry b s h = s
  decide_status-IsSound id r (ok x) by reason expiry b s h =
      decide_at-IsSound (now source b) id r x by reason expiry (tick source b)
        (same-IsSound s refl refl) h

  decide_unless-IsSound :
      (id : String) (found : Option ApprovalDecision) (r : ApprovalRequest R) (input : StatusInput)
      (by : String) (reason : Option String) (expiry : Option ℕ) (b : Broker R)
      → IsSound b
      → get id b.requests ≡ some r
      → IsSound (decide_unless source found id r input by reason expiry b).1
  decide_unless-IsSound id (some x) r input by reason expiry b s h = s
  decide_unless-IsSound id none r input by reason expiry b s h =
      decide_status-IsSound id r _ by reason expiry b s h

  decide_request-IsSound :
      (id : String) (found : Option (ApprovalRequest R)) (input : StatusInput) (by : String)
      (reason : Option String) (expiry : Option ℕ) (b : Broker R)
      → IsSound b
      → get id b.requests ≡ found
      → IsSound (decide_request source found id input by reason expiry b).1
  decide_request-IsSound id none input by reason expiry b s h = s
  decide_request-IsSound id (some r) input by reason expiry b s h =
      decide_unless-IsSound id _ r input by reason expiry _ (decision_locked-IsSound source id b s)
        (ap (get id) (decision_locked_requests source id b) ∙ h)

  record_unless-IsSound :
      (id : String) (found : Option ApprovalDecision) (r : ApprovalRequest R)
      (new : ApprovalDecision) (b : Broker R)
      → IsSound b
      → get id b.requests ≡ some r
      → new.action_digest ≡ r.action_digest
      → IsSound (record_unless source found id new b).1
  record_unless-IsSound id (some x) r new b s h same = s
  record_unless-IsSound id none r new b s h same = put-IsSound id r new s h same refl refl

  record_over-IsSound :
      (found : Option (ApprovalRequest R)) (new : ApprovalDecision) (b : Broker R)
      → IsSound b
      → get new.request_id b.requests ≡ found
      → IsSound (record_over source found new b).1
  record_over-IsSound none new b s h = s
  record_over-IsSound (some r) new b s h = elim (Bool-cases (contradicts source r new)) [
    | inl e ↦ rw e s
    | inr e ↦ rw e (
        record_unless-IsSound r.request_id _ r new _
          (decision_locked-IsSound source r.request_id b s)
          (ap (get r.request_id) (decision_locked_requests source r.request_id b)
            ∙ (ap (λ id. get id b.requests) (s.keyed new.request_id r h) ∙ h))
          (ground (arith, eq_iff new.action_digest r.action_digest)))
  ]

  perform-IsSound :
      ⦃e : Eq R⦄ (c : Call R) (b : Broker R) → IsSound b → IsSound (perform source c b)
  unfolding perform submit get_decision consume decide record_decision
  perform-IsSound (submit_call request) b s = submit-IsSound request _ b s refl
  perform-IsSound (get_decision_call id) b s = decision_locked-IsSound source id b s
  perform-IsSound (consume_call id) b s =
      if_case (λ (end : Result (Unit {0}) × Broker R). IsSound end.1) _
        (consume-IsSound id _ _ (decision_locked-IsSound source id b s)) s
  perform-IsSound (decide_call id input by reason expiry) b s =
      decide_request-IsSound id _ input by reason expiry b s refl
  perform-IsSound (record_call new) b s = record_over-IsSound _ new b s refl

  perform_all-IsSound :
      ⦃e : Eq R⦄ (calls : List (Call R)) (b : Broker R)
      → IsSound b
      → IsSound (perform_all source calls b)
  unfolding perform_all
  perform_all-IsSound [] b s = s
  perform_all-IsSound (c ∷ calls) b s =
      perform_all-IsSound calls (perform source c b) (perform-IsSound c b s)

  empty-IsSound : IsSound (empty_broker {R = R})
  unfolding get
  empty-IsSound = record { keyed = λ k r h. cc; answers = λ k d h. cc }

  -- Every decision that a broker has recorded, after any sequence of calls to a new one, belongs to
  -- a submitted request and carries the digest of the action of that request.
  pub recorded-Answers :
      ⦃e : Eq R⦄ (calls : List (Call R)) (k : String) {d : ApprovalDecision}
      → get k (perform_all source calls empty_broker).decisions ≡ some d
      → Answers (perform_all source calls empty_broker) k d
  recorded-Answers calls k {d} h =
      let sound = perform_all-IsSound calls empty_broker empty-IsSound in sound.answers k d h
