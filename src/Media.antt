-- ===== src/Media.antt =====
-- media/streaming/server.go: the media server, which relays frames between the members of a room.
pub mod Frame
pub mod Sign
pub mod Hub
pub mod Rooms
pub mod Races
