-- ===== src/Watch.antt =====
-- Package watch (internal/watch): the pass that compares the cluster with the database.
pub mod Types
pub mod Servers
pub mod Apps
pub mod Once
pub mod Certificates
pub mod Quiet
pub mod News
pub mod Told
pub mod Agrees
