-- ===== src/Governance/Permissions/Broker.antt =====
-- governance/permissions.py: `DefaultPermissionBroker.authorize` over the declarative engine. The
-- digest of a tool's arguments (tools/definitions.py, a SHA-256 of canonical JSON) is the
-- parameter `action_digest`.
use enterprise_agent_harness.Prelude.{
  String, Bool, true, false, ◌&&◌, not, some, List, contains, string_eq, if◌then◌else◌,
}
use enterprise_agent_harness.Method.{Method, pure, ◌>>=◌}
use enterprise_agent_harness.Contracts.{PolicyDecision, PermissionDecision}
use enterprise_agent_harness.Governance.Permissions.Rules.{ToolDefinition, Proposal, Engine}
use enterprise_agent_harness.Governance.Permissions.Evaluate.{evaluate}

module _ {Args : Type 0} (action_digest : ToolDefinition → Args → String) where
  abbrev pub permission : Proposal Args → PolicyDecision → Bool → String → Bool → PermissionDecision
  permission p policy allowed reason_code approval_required = record {
    allowed = allowed;
    principal_id = p.principal.principal_id;
    tenant_id = p.principal.tenant_id;
    tool_id = p.tool.tool_id;
    reason_code = reason_code;
    approval_required = approval_required;
    agent_id = some p.execution.agent_id;
    environment = some p.execution.environment;
    risk_level = some p.tool.risk_level;
    policy_decision = some policy;
  }

  abbrev pub is_approved : Proposal Args → Bool
  is_approved p = contains (action_digest p.tool p.arguments) p.execution.approved_action_digests

  unfoldable pub judge : Proposal Args → PolicyDecision → PermissionDecision
  judge p policy =
      if not policy.allowed
      then permission p policy false policy.reason_code false
      else if policy.approval_required && not (is_approved p)
      then permission p policy false "approval_required" true
      else permission p policy true
          (if policy.approval_required then "allowed_by_exact_approval" else policy.reason_code)
          false

  unfoldable pub authorize :
      Engine Args → Proposal Args → Method (List PolicyDecision) PermissionDecision
  authorize engine p = do policy ← evaluate engine p; pure (judge p policy)
