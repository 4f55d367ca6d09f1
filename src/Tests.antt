-- ===== src/Tests.antt =====
-- Concrete runs of the theorems.
mod Connection
mod Delivery
mod Resend
mod Mute
mod Media
mod Chat
mod Wire
mod Join
mod Sorted
mod Heartbeat
mod Owner
mod Call
mod Rooms
