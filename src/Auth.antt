-- ===== src/Auth.antt =====
-- Admin authentication: the in-memory login limiter and the request extractor of web/auth.rs.
pub mod Secrets
pub mod Lockout
pub mod Extractor
