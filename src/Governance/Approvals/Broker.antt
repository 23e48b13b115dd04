-- ===== src/Governance/Approvals/Broker.antt =====
-- governance/approvals.py: `InMemoryApprovalBroker`. Every method holds the broker's lock, so a run
-- of several callers is a sequence of calls. The clock and the ID factory answer by the number of
-- times they were asked. A method that reads copies is the read itself.
use enterprise_agent_harness.Prelude.{
  ℕ, ◌+◌, String, Bool, true, false, ◌&&◌, ◌||◌, not, Option, none, some, List, [], ◌∷◌, contains,
  ◌==◌, Eq, string_eq, is_some, if◌then◌else◌,
}
use enterprise_agent_harness.Dict.{Dict, get, put}
use enterprise_agent_harness.Method.{Method, Result, ok, err, value_error, key_error}
use enterprise_agent_harness.Contracts.{ApprovalDecisionStatus}
use enterprise_agent_harness.Governance.Approvals.Requests.{
  ApprovalRequest, ApprovalDecision, StatusInput, same_request, is_approved_status, is_expired,
  is_later, normalize_decision_status, reason_or_default, resolved,
}

pub record Broker (Review : Type 0) : Type 0 where
  pub requests : Dict String (ApprovalRequest Review)
  pub decisions : Dict String ApprovalDecision
  pub consumed : List String
  pub ticks : ℕ
  pub ids : ℕ

abbrev pub empty_broker : {R : Type 0} → Broker R
empty_broker = record { requests = []; decisions = []; consumed = []; ticks = 0; ids = 0 }

pub record Source : Type 0 where
  pub clock : ℕ → ℕ
  pub id_factory : ℕ → String → String
  pub lower : String → String

pub data Call (Review : Type 0) : Type 0 where
  submit_call : ApprovalRequest Review → Call Review
  get_decision_call : String → Call Review
  consume_call : String → Call Review
  decide_call : String → StatusInput → String → Option String → Option ℕ → Call Review
  record_call : ApprovalDecision → Call Review

module _ {R : Type 0} (source : Source) where
  -- One reading of the clock.
  abbrev pub tick : Broker R → Broker R
  tick b = record b { ticks = b.ticks + 1 }

  abbrev pub now : Broker R → ℕ
  now b = source.clock b.ticks

  -- A new decision: its ID is drawn, and the decision stored.
  abbrev pub store : String → ApprovalDecision → Broker R → Result ApprovalDecision × Broker R
  store id d b = (ok d, record b { decisions = put id d b.decisions; ids = b.ids + 1 })

  abbrev pub expiry_decision : ApprovalRequest R → Broker R → ApprovalDecision
  expiry_decision request b = record {
    approval_id = source.id_factory b.ids "approval";
    request_id = request.request_id;
    action_digest = request.action_digest;
    approved = false;
    status = ApprovalDecisionStatus.expired;
    decided_by = "system";
    reason_code = "approval_expired";
    expires_at = request.expires_at;
    decided_at = now b;
  }

  -- `_expire_locked`
  unfoldable pub expire : String → ApprovalRequest R → Method (Broker R) ApprovalDecision
  expire id request b = store id (expiry_decision request b) (tick b)

  abbrev pub expire_if :
      Bool → String → ApprovalRequest R → Broker R → Option ApprovalDecision × Broker R
  expire_if false id request b = (none, b)
  expire_if true id request b = (some (expiry_decision request b), (expire id request b).1)

  -- `_decision_locked`, after the two lookups.
  abbrev pub current :
      String
      → Option ApprovalDecision
      → Option (ApprovalRequest R)
      → Broker R
      → Option ApprovalDecision × Broker R
  current id (some d) request b = (some d, b)
  current id none none b = (none, b)
  current id none (some request) b =
      expire_if (is_expired request.expires_at (now b)) id request (tick b)

  unfoldable pub decision_locked : String → Broker R → Option ApprovalDecision × Broker R
  decision_locked id b = current id (get id b.decisions) (get id b.requests) b

  unfoldable pub get_decision : String → Method (Broker R) (Option ApprovalDecision)
  get_decision id b = (ok (decision_locked id b).0, (decision_locked id b).1)

  -- `submit`, after the lookup of the request.
  abbrev pub submit_over :
      ⦃e : Eq R⦄
      → Option (ApprovalRequest R)
      → ApprovalRequest R
      → Method (Broker R) (Option ApprovalDecision)
  submit_over (some existing) request b =
      if same_request existing request
      then get_decision request.request_id b
      else (err value_error, b)
  submit_over none request b =
      get_decision request.request_id
        (record b { requests = put request.request_id request b.requests })

  unfoldable pub submit :
      ⦃e : Eq R⦄ → ApprovalRequest R → Method (Broker R) (Option ApprovalDecision)
  submit request b = submit_over (get request.request_id b.requests) request b

  unfoldable pub get_request : String → Broker R → Option (ApprovalRequest R)
  get_request id b = get id b.requests

  -- `pending_requests`, for the remaining entries of the table: a request that has expired gets its
  -- decision on the way.
  unfoldable pub pending_among :
      Dict String (ApprovalRequest R) → Broker R → List (ApprovalRequest R) × Broker R
  pending_among [] b = ([], b)
  pending_among ((id, request) ∷ entries) b =
      let rest = pending_among entries (decision_locked id b).1 in
      (if is_some (decision_locked id b).0 then rest.0 else request ∷ rest.0, rest.1)

  unfoldable pub pending_requests : Broker R → List (ApprovalRequest R) × Broker R
  pending_requests b = pending_among b.requests b

  abbrev pub consume_decided : String → Option ApprovalDecision → Method (Broker R) (Unit {0})
  consume_decided id none b = (err value_error, b)
  consume_decided id (some d) b =
      if contains id b.consumed
      then (err value_error, b)
      else (ok tt, record b { consumed = id ∷ b.consumed })

  unfoldable pub consume : String → Method (Broker R) (Unit {0})
  consume id b =
      if is_some (get id b.requests)
      then consume_decided id (decision_locked id b).0 (decision_locked id b).1
      else (ok tt, b)

  abbrev pub decision_of :
      ApprovalRequest R
      → ApprovalDecisionStatus
      → String
      → Option String
      → Option ℕ
      → ℕ
      → Broker R
      → ApprovalDecision
  decision_of request status decided_by reason_code expires_at at b = record {
    approval_id = source.id_factory b.ids "approval";
    request_id = request.request_id;
    action_digest = request.action_digest;
    approved = is_approved_status status;
    status = status;
    decided_by = decided_by;
    reason_code = reason_or_default reason_code status;
    expires_at = expires_at;
    decided_at = at;
  }

  -- `decide` with the status known, `at` the instant it read.
  abbrev pub decide_at :
      ℕ
      → String
      → ApprovalRequest R
      → ApprovalDecisionStatus
      → String
      → Option String
      → Option ℕ
      → Method (Broker R) ApprovalDecision
  decide_at at id request status decided_by reason_code expires_at b =
      let expiry = resolved expires_at request.expires_at in
      if is_expired request.expires_at at
      then expire id request b
      else if is_approved_status status
      then (if is_later expiry request.expires_at
          then (err value_error, b)
          else if is_expired expiry at
          then expire id request b
          else store id (decision_of request status decided_by reason_code expiry at b) b)
      else store id (decision_of request status decided_by reason_code expires_at at b) b

  abbrev pub decide_status :
      Result ApprovalDecisionStatus
      → String
      → ApprovalRequest R
      → String
      → Option String
      → Option ℕ
      → Method (Broker R) ApprovalDecision
  decide_status (err e) id request decided_by reason_code expires_at b = (err e, b)
  decide_status (ok s) id request decided_by reason_code expires_at b =
      decide_at (now b) id request s decided_by reason_code expires_at (tick b)

  -- `decide`, after the lookup of a decision.
  abbrev pub decide_unless :
      Option ApprovalDecision
      → String
      → ApprovalRequest R
      → StatusInput
      → String
      → Option String
      → Option ℕ
      → Method (Broker R) ApprovalDecision
  decide_unless (some existing) id request input decided_by reason_code expires_at b =
      (ok existing, b)
  decide_unless none id request input decided_by reason_code expires_at b =
      decide_status (normalize_decision_status source.lower input) id request decided_by reason_code
        expires_at b

  abbrev pub decide_request :
      Option (ApprovalRequest R)
      → String
      → StatusInput
      → String
      → Option String
      → Option ℕ
      → Method (Broker R) ApprovalDecision
  decide_request none id input decided_by reason_code expires_at b = (err key_error, b)
  decide_request (some request) id input decided_by reason_code expires_at b =
      decide_unless (decision_locked id b).0 id request input decided_by reason_code expires_at
        (decision_locked id b).1

  unfoldable pub decide :
      String → StatusInput → String → Option String → Option ℕ → Method (Broker R) ApprovalDecision
  decide id input decided_by reason_code expires_at b =
      decide_request (get id b.requests) id input decided_by reason_code expires_at b

  -- `_validate_decision_against_request`: whether the decision is refused.
  abbrev pub contradicts : ApprovalRequest R → ApprovalDecision → Bool
  contradicts request d =
      not (d.request_id == request.request_id)
      || not (d.action_digest == request.action_digest)
      || (is_approved_status d.status && is_later d.expires_at request.expires_at)

  abbrev pub record_unless :
      Option ApprovalDecision → String → ApprovalDecision → Method (Broker R) ApprovalDecision
  record_unless (some existing) id d b = (ok existing, b)
  record_unless none id d b = (ok d, record b { decisions = put id d b.decisions })

  abbrev pub record_over :
      Option (ApprovalRequest R) → ApprovalDecision → Method (Broker R) ApprovalDecision
  record_over none d b = (err key_error, b)
  record_over (some request) d b =
      if contradicts request d
      then (err value_error, b)
      else record_unless (decision_locked request.request_id b).0 request.request_id d
          (decision_locked request.request_id b).1

  unfoldable pub record_decision : ApprovalDecision → Method (Broker R) ApprovalDecision
  record_decision d b = record_over (get d.request_id b.requests) d b

  -- The broker after a call, whether it returned or raised.
  unfoldable pub perform : ⦃e : Eq R⦄ → Call R → Broker R → Broker R
  perform (submit_call request) b = (submit request b).1
  perform (get_decision_call id) b = (get_decision id b).1
  perform (consume_call id) b = (consume id b).1
  perform (decide_call id input decided_by reason_code expires_at) b =
      (decide id input decided_by reason_code expires_at b).1
  perform (record_call d) b = (record_decision d b).1

  unfoldable pub perform_all : ⦃e : Eq R⦄ → List (Call R) → Broker R → Broker R
  perform_all [] b = b
  perform_all (c ∷ calls) b = perform_all calls (perform c b)
