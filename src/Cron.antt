-- ===== src/Cron.antt =====
-- Package cron (internal/cron): the five-field schedules.
pub mod Number
pub mod Schedule
pub mod Calendar
pub mod Next
pub mod Range
pub mod Fuel
pub mod Bounds
