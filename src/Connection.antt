-- ===== src/Connection.antt =====
-- quic/server: the live connections of a node.
pub mod Registry
pub mod Key
pub mod Server
pub mod Stale
pub mod Replace
pub mod Reach
pub mod Timeout
pub mod Presence
