-- ===== src/Background/Runner.antt =====
-- background/runner.py: the job runner, in the parts World (what a run reads and writes), Results
-- (the answers that handle nothing), Attempts (the retry loop) and Handle (`run`), and, in the
-- other modules, what they guarantee. `resolve_pending` is not modelled.
pub mod World
pub mod Results
pub mod Attempts
pub mod Handle
pub mod Backed
pub mod Settlement
pub mod Untouched
pub mod Bounds
pub mod Release
pub mod Alone
pub mod Stranded
pub mod Duplicates
