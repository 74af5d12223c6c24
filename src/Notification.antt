-- ===== src/Notification.antt =====
-- The notification service (services/notification/src/modules/notification).
pub mod Gateway
pub mod Entities
pub mod Repository
pub mod Service
pub mod Consumer
mod Tests
