-- ===== src/Logger.antt =====
-- internal/logger/stats.go: the figures of sender and receiver. The clock is an argument, in
-- nanoseconds; latencies are nanoseconds too.
pub mod Traffic
pub mod Latency
pub mod Sender
pub mod Receiver
