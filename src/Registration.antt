-- ===== src/Registration.antt =====
-- Public registration: the tables of invite codes and accounts behind it (db.rs) and, in the
-- children, the limiter and the handler of web/routes/registration.rs. The statements of a
-- request are run one after the other; `World` holds what is outside: `LOWER` of the database,
-- the regular expressions, bcrypt, the clock and whether a statement fails.
pub mod Tables
pub mod Limiter
pub mod Bounds
pub mod Form
pub mod Codes
pub mod Answers
pub mod Success
pub mod Runs
pub mod Spent
