-- ===== src/Events.antt =====
-- Package events (internal/events): the fan-out from the panel to the browsers.
pub mod History
pub mod Hub
mod Ok
mod Waiting
mod Channels
mod Topics
mod Asked
pub mod Sweep
pub mod Invariant
pub mod Private
