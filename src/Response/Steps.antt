-- ===== src/Response/Steps.antt =====
-- The operations of the queue keep what it represents, and touch no freed chunk.
pub mod Acks
pub mod Reads
pub mod Appends
pub mod Cleanup
