-- ===== src/Receiver.antt =====
-- cmd/recv.go: the receiver.
pub mod Stats
pub mod Forward
pub mod Register
pub mod Reconnect
