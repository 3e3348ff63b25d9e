-- ===== src/Task.antt =====
-- packages/core/src/task: a unit of work and its state machine.
pub mod Status
pub mod Model
pub mod Machine
pub mod Validate
pub mod Create
