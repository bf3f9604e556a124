-- ===== src/Queue.antt =====
-- The message queue: src/modules/queue.
mod Tests
pub mod Consumer
pub mod Consumers
pub mod Connection
pub mod Publisher
pub mod Topology
