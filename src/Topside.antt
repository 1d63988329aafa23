-- ===== src/Topside.antt =====
-- The configuration and the connections of crates/topside.
pub mod Pem
pub mod Config
pub mod Pinning
pub mod Net
pub mod Server
pub mod Main
pub mod Status
pub mod System
