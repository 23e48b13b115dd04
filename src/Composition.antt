-- ===== src/Composition.antt =====
-- composition.py: delegation to child agents, and the compositions of several of them.
pub mod Contracts
pub mod Delegate
pub mod Compose
pub mod Ceilings
pub mod Authority
pub mod Chains
pub mod Once
pub mod Pipelines
pub mod Limits
pub mod Reservations
