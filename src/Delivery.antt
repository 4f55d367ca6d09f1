-- ===== src/Delivery.antt =====
-- notifycoord, push and quic/server: the way of a room message from the database to the members.
pub mod Store
pub mod Recipients
pub mod Prepare
pub mod Acks
pub mod Fanout
pub mod Routing
pub mod Send
pub mod Node
