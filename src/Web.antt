-- ===== src/Web.antt =====
-- The parts of web/mod.rs that stand between the network and the pages.
pub mod Csrf
pub mod Outbound
pub mod Truncate
