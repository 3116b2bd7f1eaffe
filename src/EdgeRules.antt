-- ===== src/EdgeRules.antt =====
-- Package edgerules (internal/edgerules): which requests reach an app.
pub mod Types
pub mod Evaluate
pub mod Validate
mod KnownTest
pub mod Complete
pub mod ClientIp
pub mod Decides
pub mod Unread
pub mod Forwarded
