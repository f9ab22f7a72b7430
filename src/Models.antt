-- ===== src/Models.antt =====
-- The rows of the PostgreSQL tables and the exceptions that the services raise.
pub mod Jobs
pub mod Outbox
pub mod Files
pub mod Notifications
pub mod Audit
pub mod Maintenance
pub mod Errors
