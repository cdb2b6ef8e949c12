-- ===== src/Tests.antt =====
-- Concrete runs of the definitions, and the theorems at concrete inputs.
mod Data
mod Control
mod Sums
mod Fec
mod Session
mod Worker
mod Logger
mod Forward
mod Analyzer
mod Receiver
mod Cipher
mod Config
mod Sender
mod Registration
mod Channel
mod Plain
