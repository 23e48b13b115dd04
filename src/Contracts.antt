-- ===== src/Contracts.antt =====
-- contracts.py: the enumerations (Kinds) and the contracts that the components exchange (Records).
mod Kinds
mod Records
pub use Kinds.*
pub use Records.*
