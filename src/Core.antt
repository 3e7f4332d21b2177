-- ===== src/Core.antt =====
-- pkg/core: messages (message.go), handler results (types.go) and the retry policy (retry_policy.go).
pub mod Message
pub mod Outcome
pub mod RetryPolicy
