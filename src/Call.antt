-- ===== src/Call.antt =====
-- http/handler/media/stream.go: media calls, from the invitation to the record of their end.
pub mod Tables
pub mod Sessions
pub mod Members
pub mod Handlers
pub mod Intact
pub mod Kept
pub mod Answered
pub mod Started
pub mod Reach
pub mod Signs
pub mod Over
pub mod Races
pub mod Ended
pub mod Left
pub mod Rooms
pub mod Corrected
pub mod Emptied
pub mod Gone
