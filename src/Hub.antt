-- ===== src/Hub.antt =====
-- crates/topside/src/hub.rs
pub mod Loads
pub mod Link
pub mod State
pub mod Slots
pub mod Watching
pub mod FromHome
pub mod FromPhone
pub mod Run
pub mod Relay
pub mod Gate
pub mod Asking
pub mod Quiet
pub mod Halting
pub mod Serving
pub mod Callers
pub mod Updates
pub mod Ending
pub mod Expiry
pub mod Untouched
pub mod Invariant
