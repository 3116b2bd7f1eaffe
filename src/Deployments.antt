-- ===== src/Deployments.antt =====
-- internal/store/deployments.go and internal/store/retention.go.
pub mod Rows
pub mod Writes
pub mod Logs
pub mod Retention
pub mod Changes
pub mod Consistent
pub mod LogKeys
pub mod Invariant
pub mod Window
pub mod Within
pub mod Settled
pub mod Begin
pub mod Replaced
pub mod Pages
pub mod Resume
pub mod Batch
pub mod Spare
pub mod Windows
