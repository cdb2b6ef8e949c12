-- ===== src/Fec.antt =====
-- Package internal/fec: parity packets for the sender, recovery for the receiver.
pub mod Codec
pub mod Encode
pub mod Manager
pub mod Analyzer
pub mod Parity
pub mod EndToEnd
