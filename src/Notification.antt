-- ===== src/Notification.antt =====
-- services/notification: the history of (mock) emails.
pub mod Service
pub mod Consumers
pub mod Main
pub mod History
pub mod Recipient
pub mod Dispatch
pub mod Routes
mod Tests
