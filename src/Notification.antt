-- ===== src/Notification.antt =====
-- Notifications: src/features/notifications.
pub mod Data
pub mod Payload
pub mod Processor
pub mod Statistics
pub mod Webhook
pub mod Channels
