-- ===== src/Metadata.antt =====
-- Metadata of NFTs: src/features/metadata.
pub mod Normalize
pub mod Images
pub mod Fetcher
pub mod Enrichment
mod Tests
