-- ===== src/Provision.antt =====
-- The remote installation of provision.rs: quoting, paths, arguments, captured output, uploads.
pub mod Shell
pub mod Paths
pub mod Params
pub mod Capture
pub mod Upload
