-- ===== src/Snorkel.antt =====
-- crates/snorkel
pub mod Session
pub mod Copy
pub mod Copied
pub mod Reporting
pub mod Copying
pub mod Pem
pub mod Config
pub mod Ports
pub mod Endpoints
pub mod Dial
pub mod Link
pub mod Backoff
pub mod Once
pub mod Main
pub mod Shutdown
pub mod Run
pub mod Totals
