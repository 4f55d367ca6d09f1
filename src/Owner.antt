-- ===== src/Owner.antt =====
-- http/handler/room/room.go: roles, the transfer of a room, and members who leave.
pub mod Handlers
pub mod Owned
pub mod Kept
pub mod Transfers
pub mod Blocks
pub mod Blocked
pub mod RoomBlocks
pub mod Dissolve
pub mod Dissolved
