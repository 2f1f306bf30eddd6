-- ===== src/Net.antt =====
-- Network addresses, and the test of outbound addresses in web/mod.rs.
pub mod IpAddr
