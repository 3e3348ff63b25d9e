-- ===== src/Schedule.antt =====
-- packages/orchestrator/src/schedule: what the scheduler sorts by.
pub mod Priority
