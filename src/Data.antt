-- ===== src/Data.antt =====
-- Package internal/data: the wire header, the packet queue, the sessions and their workers.
pub mod Header
pub mod Queue
pub mod Session
