-- ===== src/Governance/Permissions.antt =====
-- governance/permissions.py, in the parts Rules (what the engine is given, and when a rule
-- matches), Authority (the refusals before any policy), Definitions (the policies), Evaluate (the
-- hooks and `evaluate`) and Broker; and proofs about them, for which Grants says what the context
-- and the mappings grant, and Clashes when the IDs of the matching rules repeat.
pub mod Rules
pub mod Authority
pub mod Grants
pub mod Definitions
pub mod Evaluate
pub mod Broker
pub mod Ceiling
pub mod Verdict
pub mod Approval
pub mod DenyFirst
pub mod Clashes
