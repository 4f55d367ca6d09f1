-- ===== src/Mute.antt =====
-- db/query/room_mute.go: who may speak in a room.
pub mod State
pub mod Frequency
pub mod Rule
pub mod Update
pub mod Decision
pub mod Window
pub mod Effect
