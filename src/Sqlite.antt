-- ===== src/Sqlite.antt =====
-- roomdb/sqlite.
pub mod Rows
pub mod Db
pub mod Select
pub mod Schema
pub mod Tables
pub mod Keeps
pub mod Atomic
pub mod Invariant
pub mod Members
pub mod Tokens
pub mod Invites
pub mod Aliases
pub mod Denied
pub mod Config
pub mod Sessions
pub mod Fallback
pub mod Notices
pub mod Liveness
pub mod Service
