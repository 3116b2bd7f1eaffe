-- ===== src/Provision.antt =====
-- internal/provision and the operations of internal/store: how a server is added.
pub mod Plan
pub mod Runner
pub mod AddServer
pub mod Retry
pub mod Statuses
pub mod Steps
pub mod Ends
pub mod Resumes
pub mod Stuck
pub mod Drain
pub mod Drains
pub mod Remove
pub mod Stages
pub mod Removes
