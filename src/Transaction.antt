-- ===== src/Transaction.antt =====
-- Transaction processing: src/features/transaction-processing.
pub mod Data
pub mod Dedup
pub mod Ingestion
pub mod Tables
pub mod Batch
pub mod Meta
pub mod Messages
pub mod Consumer
pub mod Parser
