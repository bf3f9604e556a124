-- ===== src/Xrpl.antt =====
-- The connection to the XRP ledger: src/modules/xrpl-connection.
pub mod Ledgers
pub mod Retry
pub mod Nodes
pub mod Relay
pub mod Backfill
mod Tests
