-- ===== src/Policies.antt =====
-- packages/core/src/department/review-policy.ts: reading a policy that a body or a file declares.
pub mod Stages
pub mod Parse
pub mod Valid
pub mod Gathered
pub mod Accepted
pub mod Roundtrip
