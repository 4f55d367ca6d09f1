-- ===== src/Wire.antt =====
-- quic/handler/protocol, pkg/protocol and the read loop of quic/handler/message_handler.go: from the
-- bytes of a stream to the messages that are dispatched.
pub mod Packet
pub mod Drain
pub mod Chunks
pub mod Inbound
pub mod Versions
