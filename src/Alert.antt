-- ===== src/Alert.antt =====
-- Alerts: src/features/alerts.
pub mod Data
pub mod Repository
pub mod Traits
pub mod Matching
pub mod Dispatch
pub mod Config
