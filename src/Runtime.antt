-- ===== src/Runtime.antt =====
-- runtime/: the controls that one execution shares.
pub mod Control
pub mod Budgets
pub mod Spending
