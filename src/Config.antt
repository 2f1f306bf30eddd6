-- ===== src/Config.antt =====
-- The maps that config.rs writes for Postfix and Dovecot.
pub mod Addresses
pub mod Entries
pub mod Files
pub mod Collected
pub mod Lookup
pub mod Lines
pub mod Gaps
