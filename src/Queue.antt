-- ===== src/Queue.antt =====
-- packages/orchestrator/src/queue: the job queue of an office that runs in one process.
pub mod Types
pub mod Ops
pub mod Stats
pub mod Chosen
pub mod Counted
pub mod Startable
pub mod Claimed
pub mod Limits
pub mod Steps
pub mod Kept
pub mod Accounts
pub mod Once
pub mod Again
