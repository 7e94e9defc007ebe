-- ===== src/Order.antt =====
-- services/order: orders, their status and who may see them.
pub mod Decimal
pub mod Model
pub mod Service
pub mod Consumers
pub mod Main
pub mod Routes
pub mod Total
pub mod Create
pub mod Status
pub mod Cancel
pub mod Access
pub mod Listing
pub mod Coherence
mod Tests
