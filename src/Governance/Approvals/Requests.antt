-- ===== src/Governance/Approvals/Requests.antt =====
-- contracts.py: the approval contracts, and the small functions of governance/approvals.py on them.
-- `review` stands for the fields of a request that the broker only compares. Instants are numbers.
use enterprise_agent_harness.Prelude.{
  ℕ, String, Bool, true, false, ◌&&◌, Option, none, some, leb, if◌then◌else◌, ◌==◌, Eq, string_eq,
  nat_eq, option_eq,
}
use enterprise_agent_harness.Method.{Result, ok, err, value_error}
use enterprise_agent_harness.Contracts.{ApprovalDecisionStatus}

pub record ApprovalRequest (Review : Type 0) : Type 0 where
  pub request_id : String
  pub execution_id : String
  pub principal_id : String
  pub tenant_id : String
  pub action_digest : String
  pub expires_at : Option ℕ
  pub created_at : ℕ
  pub review : Review

pub record ApprovalDecision : Type 0 where
  pub approval_id : String
  pub request_id : String
  pub action_digest : String
  pub approved : Bool
  pub status : ApprovalDecisionStatus
  pub decided_by : String
  pub reason_code : String
  pub expires_at : Option ℕ
  pub decided_at : ℕ

-- `existing == request`
unfoldable pub same_request : {R : Type 0} ⦃e : Eq R⦄ → ApprovalRequest R → ApprovalRequest R → Bool
same_request a b =
    a.request_id == b.request_id
    && a.execution_id == b.execution_id
    && a.principal_id == b.principal_id
    && a.tenant_id == b.tenant_id
    && a.action_digest == b.action_digest
    && a.expires_at == b.expires_at
    && a.created_at == b.created_at
    && a.review == b.review

abbrev pub is_approved_status : ApprovalDecisionStatus → Bool
is_approved_status ApprovalDecisionStatus.approved = true
is_approved_status _ = false

-- `_expired`
unfoldable pub is_expired : Option ℕ → ℕ → Bool
is_expired none now = false
is_expired (some value) now = leb value now

-- `a > b` where both are given.
abbrev pub is_later : Option ℕ → Option ℕ → Bool
is_later (some a) (some b) = elim (leb a b) [ true ↦ false | false ↦ true ]
is_later _ _ = false

-- `ApprovalDecisionStatus | str`
pub data StatusInput : Type 0 where
  status : ApprovalDecisionStatus → StatusInput
  text : String → StatusInput

-- The table `aliases`; the key is the text in lower case.
abbrev pub alias : String → Result ApprovalDecisionStatus
alias key =
    if key == "approve"
    then ok ApprovalDecisionStatus.approved
    else if key == "approved"
    then ok ApprovalDecisionStatus.approved
    else if key == "reject"
    then ok ApprovalDecisionStatus.rejected
    else if key == "rejected"
    then ok ApprovalDecisionStatus.rejected
    else if key == "request_change"
    then ok ApprovalDecisionStatus.request_changes
    else if key == "request_changes"
    then ok ApprovalDecisionStatus.request_changes
    else if key == "requested_changes"
    then ok ApprovalDecisionStatus.request_changes
    else if key == "expired"
    then ok ApprovalDecisionStatus.expired
    else err value_error

-- Python's `str.lower` is the parameter `lower`.
unfoldable pub normalize_decision_status :
    (String → String) → StatusInput → Result ApprovalDecisionStatus
normalize_decision_status lower (status s) = ok s
normalize_decision_status lower (text value) = alias (lower value)

abbrev pub default_reason : ApprovalDecisionStatus → String
default_reason ApprovalDecisionStatus.approved = "approved"
default_reason ApprovalDecisionStatus.rejected = "rejected"
default_reason ApprovalDecisionStatus.request_changes = "changes_requested"
default_reason ApprovalDecisionStatus.expired = "approval_expired"

-- `reason_code or _default_reason(status)`
abbrev pub reason_or_default : Option String → ApprovalDecisionStatus → String
reason_or_default none s = default_reason s
reason_or_default (some reason) s = if reason == "" then default_reason s else reason

-- The expiry of an approval: the caller's, or else the request's.
abbrev pub resolved : Option ℕ → Option ℕ → Option ℕ
resolved none limit = limit
resolved (some e) limit = some e
