-- ===== src/Background.antt =====
-- background/: events, leases, deduplication records and the job runner.
pub mod Leases
pub mod Deduplication
pub mod Events
pub mod Runner
