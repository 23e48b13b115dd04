-- ===== src/Tests.antt =====
-- The theorems at concrete inputs.
mod Stores
mod Jobs
mod Permissions
mod Approvals
mod Safety
mod Tools
mod Composition
mod States
mod Controls
mod Policies
