-- ===== src/Workflow/Policy.antt =====
-- packages/orchestrator/src/workflow/*-policy.ts and the direct policy of workflow-engine.ts: one
-- handler for each review policy.
pub mod Direct
pub mod Manager
pub mod Peer
pub mod Quorum
pub mod Pipeline
pub mod Automated
pub mod Gate
