-- ===== src/State.antt =====
-- state/: the workflow states and the store that keeps them.
pub mod Store
pub mod Ownership
pub mod Conflicts
