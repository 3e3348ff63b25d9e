-- ===== src/Graph.antt =====
-- packages/core/src/connection/connection.ts: drawing, changing and checking the arrows of an
-- office. A kind that is none of the six, which `isKind` tests for, is the absence of one.
pub mod Search
pub mod Draw
pub mod Paths
pub mod Acyclic
pub mod Checked
