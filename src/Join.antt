-- ===== src/Join.antt =====
-- http/handler/room: joining a room, with and without an approval.
pub mod Desk
pub mod Enter
pub mod Requests
pub mod Handling
pub mod Entered
pub mod Committed
pub mod Attempts
pub mod Counted
pub mod Handled
pub mod Races
pub mod Asked
