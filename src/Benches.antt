-- ===== src/Benches.antt =====
-- packages/core/src/department/bench.ts: people who take the same kind of work in turn.
pub mod Turn
pub mod Rotation
pub mod Shape
pub mod Valid
