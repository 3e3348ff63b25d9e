-- ===== src/Workflow/Outcomes.antt =====
-- What particular events come to, and what finishing and escalating raise.
pub mod Moves
pub mod Refused
pub mod Finished
pub mod Quorum
pub mod Rounds
pub mod Committee
pub mod Handoffs
pub mod Climbed
pub mod Superiors
pub mod Followed
pub mod Lowest
pub mod Target
pub mod Accepted
pub mod Signed
pub mod Gates
