-- ===== src/Room.antt =====
-- The live side of the room: who is connected, who is told of it, and who may ask.
pub mod Broadcasts
pub mod State
pub mod Tunnel
pub mod Network
pub mod Trackers
pub mod Aliases
pub mod Actions
pub mod SignIn
