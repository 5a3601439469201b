-- ===== src/Server.antt =====
-- The server around the rooms: the maps of `PokerServer` that the requests of sessions read and
-- change, and the handlers that work on them.
pub mod State
pub mod Gameplay
pub mod Marks
pub mod Sync
pub mod Seating
pub mod Joining
pub mod Voice
pub mod Leaving
pub mod Rooms
pub mod Dispatch
pub mod Sound
pub mod Reachable
