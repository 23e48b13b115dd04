-- ===== src/Governance.antt =====
-- governance/: permission and policy checks, safety decisions and approvals.
pub mod Permissions
pub mod Safety
pub mod Approvals
