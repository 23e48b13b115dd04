-- ===== src/Governance/Approvals/Expiry.antt =====
-- How long an approval may live.
use enterprise_agent_harness.Prelude.{
  ℕ, ◌≤◌, ◌<◌, String, ◌≡◌, refl, sym, ap, ◌∙◌, true, false, Option, none, some, List, Eq, arith,
  string_eq, eq_iff,
}
use enterprise_agent_harness.Dict.{get, put, get-put}
use enterprise_agent_harness.Method.{Result, ok, err}
use enterprise_agent_harness.Contracts.{ApprovalDecisionStatus}
use enterprise_agent_harness.Governance.Approvals.Requests.{
  ApprovalRequest, ApprovalDecision, StatusInput, is_expired,
}
use enterprise_agent_harness.Governance.Approvals.Broker.{
  Broker, Source, now, tick, expire, current, decision_locked, decide_at, decide_status,
  decide_unless, decide_request, decide, record_unless, record_decision, contradicts, get_decision,
  Call, perform_all,
}
use enterprise_agent_harness.Governance.Approvals.Recorded.{
  perform_all_decided, decision_locked_decided,
}

-- The decision expires, later than it was made and no later than `limit`.
pub record ExpiresBy (limit : ℕ) (d : ApprovalDecision) : Type 0 where
  pub expiry : ℕ
  pub expires : d.expires_at ≡ some expiry
  pub by_limit : expiry ≤ limit
  pub not_yet : d.decided_at < expiry

module _ {R : Type 0} (source : Source) where
  decide_at-ExpiresBy :
      (at : ℕ) (id : String) (r : ApprovalRequest R) (status : ApprovalDecisionStatus) (by : String)
      (reason : Option String) (expiry : Option ℕ) (b : Broker R) (limit : ℕ) (d : ApprovalDecision)
      → r.expires_at ≡ some limit
      → (decide_at source at id r status by reason expiry b).0 ≡ ok d
      → d.approved ≡ true
      → (x : ℕ) × (d.expires_at ≡ some x) × (x ≤ limit) × (d.decided_at < x)
  unfolding expire is_expired
  decide_at-ExpiresBy at id r status by reason none b limit d h g a =
      (limit, ground arith, ground arith, ground arith)
  decide_at-ExpiresBy at id r status by reason (some e) b limit d h g a =
      (e, ground arith, ground arith, ground arith)

  decide_status-ExpiresBy :
      (id : String) (r : ApprovalRequest R) (status : Result ApprovalDecisionStatus) (by : String)
      (reason : Option String) (expiry : Option ℕ) (b : Broker R) (limit : ℕ) (d : ApprovalDecision)
      → r.expires_at ≡ some limit
      → (decide_status source status id r by reason expiry b).0 ≡ ok d
      → d.approved ≡ true
      → ExpiresBy limit d
  decide_status-ExpiresBy id r (err e) by reason expiry b limit d h g a = cc
  decide_status-ExpiresBy id r (ok s) by reason expiry b limit d h g a =
      let (x, p, q, l) =
        decide_at-ExpiresBy (now source b) id r s by reason expiry (tick source b) limit d h g a in
      record { expiry = x; expires = p; by_limit = q; not_yet = l }

  current_undecided :
      (id : String) (request : Option (ApprovalRequest R)) (b : Broker R) {d : ApprovalDecision}
      → (current source id none request b).0 ≡ some d
      → d.approved ≡ false
  current_undecided id none b h = cc
  current_undecided id (some r) b h = ground arith

  decision_locked_undecided :
      (id : String) (b : Broker R) {d : ApprovalDecision}
      → get id b.decisions ≡ none
      → (decision_locked source id b).0 ≡ some d
      → d.approved ≡ false
  unfolding decision_locked
  decision_locked_undecided id b n h =
      current_undecided id (get id b.requests) b
        (ap (λ o. (current source id o (get id b.requests) b).0) (sym n) ∙ h)

  decide_unless-ExpiresBy :
      (id : String) (found : Option ApprovalDecision) (r : ApprovalRequest R) (input : StatusInput)
      (by : String) (reason : Option String) (expiry : Option ℕ) (b : Broker R) (limit : ℕ)
      (d : ApprovalDecision)
      → ((x : ApprovalDecision) → found ≡ some x → x.approved ≡ false)
      → r.expires_at ≡ some limit
      → (decide_unless source found id r input by reason expiry b).0 ≡ ok d
      → d.approved ≡ true
      → ExpiresBy limit d
  decide_unless-ExpiresBy id none r input by reason expiry b limit d n h g a =
      decide_status-ExpiresBy id r _ by reason expiry b limit d h g a
  decide_unless-ExpiresBy id (some x) r input by reason expiry b limit d n h g a =
      let no = n x refl in absurd (cc)

  -- An approval that `decide` gives to an undecided request with an expiry has an expiry itself,
  -- which is not later than that of the request and later than the instant of the decision.
  pub decide-ExpiresBy :
      (id : String) (input : StatusInput) (by : String) (reason : Option String) (expiry : Option ℕ)
      (b : Broker R) (limit : ℕ) {r : ApprovalRequest R} {d : ApprovalDecision}
      → get id b.requests ≡ some r
      → get id b.decisions ≡ none
      → r.expires_at ≡ some limit
      → (decide source id input by reason expiry b).0 ≡ ok d
      → d.approved ≡ true
      → ExpiresBy limit d
  unfolding decide
  decide-ExpiresBy id input by reason expiry b limit {r} {d} h n e g a =
      decide_unless-ExpiresBy id (decision_locked source id b).0 r input by reason expiry
        (decision_locked source id b).1 limit d (λ x. decision_locked_undecided id b n) e
        (ap (λ o. (decide_request source o id input by reason expiry b).0) (sym h) ∙ g) a

  recorded :
      (id : String) (found : Option ApprovalDecision) (d : ApprovalDecision) (b : Broker R)
      → found ≡ none
      → record_unless source found id d b ≡ (ok d, record b { decisions = put id d b.decisions })
  recorded id none d b n = refl
  recorded id (some x) d b n = absurd (cc)

  record_decision_accepts :
      (d : ApprovalDecision) (b : Broker R) {r : ApprovalRequest R}
      → get d.request_id b.requests ≡ some r
      → r.request_id ≡ d.request_id
      → r.action_digest ≡ d.action_digest
      → (decision_locked source r.request_id b).0 ≡ none
      → d.expires_at ≡ none
      → ((record_decision source d b).0 ≡ ok d)
        × (get d.request_id (record_decision source d b).1.decisions ≡ some d)
  unfolding record_decision
  record_decision_accepts d b {r} h i same n e =
      let at = (decision_locked source r.request_id b).1 in
      let fits : contradicts source r d ≡ false =
        ground (arith, eq_iff d.request_id r.request_id, eq_iff d.action_digest r.action_digest) in
      rw h (
        rw fits (
          rw (recorded r.request_id (decision_locked source r.request_id b).0 d at n)
            (refl, grind (arith, get-put, eq_iff r.request_id d.request_id))))

  -- For a stored request that has no decision, after expiry is looked at, `record_decision` accepts
  -- a decision with the request's digest that never expires, an approval too, whatever the expiry
  -- of the request is; and whatever calls of the broker follow, at whatever instants,
  -- `get_decision` answers that decision.
  pub record_decision_unbounded :
      ⦃q : Eq R⦄ (d : ApprovalDecision) (b : Broker R) (calls : List (Call R))
      {r : ApprovalRequest R}
      → get d.request_id b.requests ≡ some r
      → r.request_id ≡ d.request_id
      → r.action_digest ≡ d.action_digest
      → (decision_locked source r.request_id b).0 ≡ none
      → d.expires_at ≡ none
      → let end = perform_all source calls (record_decision source d b).1 in
        ((record_decision source d b).0 ≡ ok d)
        × (get_decision source d.request_id end ≡ (ok (some d), end))
  unfolding get_decision
  record_decision_unbounded d b calls {r} h i same n e =
      let (accepted, stored) = record_decision_accepts d b {r = r} h i same n e in
      let kept =
        perform_all_decided source calls d.request_id (record_decision source d b).1 stored in
      (
        accepted,
        ap (λ (o : Option ApprovalDecision × Broker R). (ok o.0, o.1))
            (decision_locked_decided source d.request_id _ kept),
      )
