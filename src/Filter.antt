-- ===== src/Filter.antt =====
-- The content filter of filter.rs, which Postfix pipes each message through.
pub mod Envelope
pub mod Smtp
pub mod Headers
pub mod Body
pub mod Junk
pub mod Stages
pub mod Pipeline
