-- ===== src/Workflow.antt =====
-- packages/orchestrator/src/workflow: the engine that turns an event into a move of a task and a
-- list of effects, and the review policies that it hands the reviewed events to.
pub mod Types
pub mod Acceptance
pub mod Peers
pub mod Escalation
pub mod Checker
pub mod Review
pub mod Policy
pub mod Raised
pub mod Engine
pub mod Soundness
pub mod Outcomes
pub mod Waiting
