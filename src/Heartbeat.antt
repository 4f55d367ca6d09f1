-- ===== src/Heartbeat.antt =====
-- quic/heartbeat: the manager that finds the clients whose heartbeat is overdue.
pub mod Entries
pub mod Heap
pub mod Manager
pub mod Synced
pub mod Overdue
pub mod Reach
