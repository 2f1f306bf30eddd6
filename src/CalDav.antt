-- ===== src/CalDav.antt =====
-- The calendar server of web/routes/caldav.rs with its tables in db.rs.
pub mod Tables
pub mod Texts
pub mod Auth
pub mod Methods
pub mod Handler
pub mod Ownership
pub mod Access
pub mod Storage
pub mod Caps
