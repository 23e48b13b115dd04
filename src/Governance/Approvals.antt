-- ===== src/Governance/Approvals.antt =====
-- governance/approvals.py: the approval policy engine and the in-memory approval broker.
pub mod Requests
pub mod Broker
pub mod Recorded
pub mod Evidence
pub mod Sound
pub mod Consumed
pub mod Expiry
pub mod Policies
pub mod Reading
pub mod Least
pub mod Required
