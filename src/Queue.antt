-- ===== src/Queue.antt =====
-- internal/queue: the messages, the storage and the processor.
pub mod Message
pub mod Bolt
pub mod Storage
pub mod Backoff
pub mod Processor
