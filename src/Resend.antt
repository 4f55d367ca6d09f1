-- ===== src/Resend.antt =====
-- queue/handlers.go and the ACK handlers of quic/handler/message_handler.go: resending what a client
-- has not acknowledged.
pub mod Rows
pub mod Room
pub mod Outcome
pub mod Settled
pub mod FileStatus
