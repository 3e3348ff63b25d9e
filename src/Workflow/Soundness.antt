-- ===== src/Workflow/Soundness.antt =====
-- What every event does to a task, whatever the policy: the record that a handled task keeps.
pub mod Moves
pub mod Reviews
pub mod Reviewed
pub mod Gated
pub mod Events
