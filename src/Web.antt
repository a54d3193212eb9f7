-- ===== src/Web.antt =====
-- web: the pages of the room, their forms, and who may submit them.
pub mod Errors
pub mod Endpoint
pub mod Request
pub mod Admin
pub mod Secrets
pub mod Login
pub mod Password
pub mod Invites
pub mod Banning
pub mod Aliases
pub mod Notices
