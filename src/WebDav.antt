-- ===== src/WebDav.antt =====
-- The WebDAV server of web/routes/webdav.rs: its lockout, its tables, the handler of /dav/, and the
-- links to files.
pub mod Lockout
pub mod Files
pub mod Auth
pub mod Methods
pub mod Handler
pub mod FileLink
pub mod Bounds
pub mod Authentic
pub mod Owned
pub mod Access
pub mod Storage
