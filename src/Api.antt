-- ===== src/Api.antt =====
-- internal/api: the decisions of the HTTP handlers.
pub mod Limits
pub mod RateLimit
pub mod Execute
pub mod Reply
pub mod Gate
pub mod Errors
pub mod Sessions
pub mod Steps
pub mod Files
pub mod Denied
pub mod Volumes
pub mod Memory
pub mod Tests
