-- ===== src/Notifications.antt =====
-- backend/app/modules/notifications: in-app notifications and the delivery of their emails.
pub mod Service
pub mod Deliveries
pub mod Email
pub mod Queue
pub mod Notices
pub mod Endings
pub mod Sends
pub mod Attempts
pub mod Once
pub mod Exhaustion
pub mod Superseded
pub mod Examples
pub mod SupersededExamples
