-- ===== src/Notifications.antt =====
-- The notification service (notification-service/src): notifications, their unread counts and pages.
pub mod Content
pub mod World
pub mod Repo
pub mod Service
mod Tests
