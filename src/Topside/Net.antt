-- ===== src/Topside/Net.antt =====
-- The connections of crates/topside/src/net.rs.
pub mod Bearer
pub mod Admission
pub mod Home
pub mod Reading
pub mod Delivery
pub mod Telling
pub mod Phone
pub mod Texting
