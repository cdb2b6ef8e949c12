-- ===== src/Handshake.antt =====
-- cmd/send.go and cmd/recv.go: the registration of a receiver, both ends together.
pub mod Challenge
pub mod Answer
pub mod Attempting
pub mod Encrypted
pub mod Channel
pub mod Plain
