-- ===== src/Tests/Approvals.antt =====
-- The approval broker at concrete requests and calls.
use enterprise_agent_harness.Prelude.{String, ◌≡◌, refl, true, none, some, List, [], ◌∷◌, string_eq}
use enterprise_agent_harness.Dict.{get, put}
use enterprise_agent_harness.Method.{ok, err, value_error}
use enterprise_agent_harness.Contracts.{ApprovalDecisionStatus}
use enterprise_agent_harness.Governance.Approvals.Requests.{
  ApprovalRequest, ApprovalDecision, text, is_expired, normalize_decision_status,
}
use enterprise_agent_harness.Governance.Approvals.Broker.{
  Broker, Source, Call, empty_broker, submit_call, consume_call, decide_call, record_call,
  decision_locked, get_decision, submit, consume, decide, record_decision, perform, perform_all,
}
use enterprise_agent_harness.Governance.Approvals.Recorded.{perform_all_decided}
use enterprise_agent_harness.Governance.Approvals.Evidence.{Answers}
use enterprise_agent_harness.Governance.Approvals.Sound.{recorded-Answers}
use enterprise_agent_harness.Governance.Approvals.Consumed.{consume_once}
use enterprise_agent_harness.Governance.Approvals.Expiry.{
  ExpiresBy, decide-ExpiresBy, record_decision_unbounded,
}

abbrev source : Source
source = record { clock = λ n. n; id_factory = λ n prefix. prefix; lower = λ value. value }

abbrev request : ApprovalRequest String
request = record {
  request_id = "req_1";
  execution_id = "run_1";
  principal_id = "ada";
  tenant_id = "acme";
  action_digest = "refund 5";
  expires_at = some 900;
  created_at = 0;
  review = "refund the order";
}

abbrev external : ApprovalDecision
external = record {
  approval_id = "approval";
  request_id = "req_1";
  action_digest = "refund 5";
  approved = true;
  status = ApprovalDecisionStatus.approved;
  decided_by = "bob";
  reason_code = "approved";
  expires_at = none;
  decided_at = 5;
}

abbrev asked : Broker String
asked = record empty_broker { requests = ("req_1", request) ∷ [] }

abbrev answered : Broker String
answered = record asked { decisions = ("req_1", external) ∷ [] }

abbrev refusing : List (Call String)
refusing =
    decide_call "req_1" (text "reject") "eve" none none
    ∷ submit_call request
    ∷ record_call (record external { expires_at = some 10 })
    ∷ []

perform_all_decided_example :
    get "req_1" (perform_all source refusing answered).decisions ≡ some external
unfolding get
perform_all_decided_example =
    perform_all_decided source refusing "req_1" answered {d = external} refl

consume_once_example :
    (consume source "req_1" (perform_all source refusing (consume source "req_1" answered).1)).0
    ≡ err value_error
unfolding consume decision_locked get
consume_once_example = consume_once source "req_1" answered refusing {r = request} refl refl

given :
    (d : ApprovalDecision) × ((decide source "req_1" (text "approve") "bob" none (some 600) asked).0
      ≡ ok d)
    × (d.approved ≡ true)
unfolding decide decision_locked get is_expired normalize_decision_status
given = (_, refl, refl)

decide-ExpiresBy_example : ExpiresBy 900 given.0
unfolding get
decide-ExpiresBy_example =
    decide-ExpiresBy source "req_1" (text "approve") "bob" none (some 600) asked 900 {r = request}
      {d = given.0} refl refl refl given.1 given.2

-- A rejection that comes after the approval, and its consumption.
abbrev later : List (Call String)
later = decide_call "req_1" (text "reject") "eve" none none ∷ consume_call "req_1" ∷ []

record_decision_unbounded_example :
    let end = perform_all source later (record_decision source external asked).1 in
    ((record_decision source external asked).0 ≡ ok external)
    × (get_decision source "req_1" end ≡ (ok (some external), end))
unfolding decision_locked get is_expired
record_decision_unbounded_example =
    record_decision_unbounded source external asked later {r = request} refl refl refl refl refl

abbrev calls : List (Call String)
calls = submit_call request ∷ record_call external ∷ []

recorded-Answers_example : Answers (perform_all source calls empty_broker) "req_1" external
unfolding perform_all perform submit record_decision get_decision decision_locked get put is_expired
recorded-Answers_example = recorded-Answers source calls "req_1" {d = external} refl
