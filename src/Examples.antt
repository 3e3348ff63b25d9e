-- ===== src/Examples.antt =====
-- Tests on a small office, and the theorems applied in it.
pub mod Office
pub mod Tasks
pub mod Flows
pub mod Graphs
pub mod Queues
pub mod Routes
pub mod Rooms
pub mod Declared
