-- ===== src/Chat.antt =====
-- quic/handler/message_handler.go: sending a room message and withdrawing it.
pub mod Tables
pub mod Sequence
pub mod Updates
pub mod Refilled
pub mod Send
pub mod Tested
pub mod Accepted
pub mod Withdrawn
pub mod Withdraw
