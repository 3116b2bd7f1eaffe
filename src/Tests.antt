-- ===== src/Tests.antt =====
-- Runs of the model on concrete input.
pub mod Rules
pub mod Front
pub mod Stream
pub mod Timetable
pub mod Tokens
pub mod Night
pub mod Growth
pub mod Releases
pub mod Parcels
pub mod Labels
pub mod Machines
pub mod Removals
