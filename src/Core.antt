-- ===== src/Core.antt =====
-- packages/core/src: what the parts of the domain share.
pub mod Result
pub mod Gates
pub mod Unknown
pub mod Policy
pub mod Connection
