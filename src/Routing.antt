-- ===== src/Routing.antt =====
-- packages/llm/src/routing: which provider a call goes to.
pub mod Breaker
pub mod Trials
pub mod Burst
