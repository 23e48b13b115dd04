-- ===== src/Tools.antt =====
-- tools/: tool definitions and the registry that resolves and runs them.
pub mod Definitions
pub mod Invoke
pub mod Registry
pub mod Invocation
pub mod Execution
pub mod Attempts
pub mod Steps
pub mod Replay
pub mod Lifecycle
pub mod Retries
pub mod Retry
