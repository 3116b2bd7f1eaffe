-- ===== src/Uploads.antt =====
-- internal/upload/upload.go.
pub mod Names
pub mod Archive
pub mod Shelf
pub mod Inside
pub mod Accepted
pub mod Reported
pub mod Overflow
pub mod Kept
pub mod Saved
