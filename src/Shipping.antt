-- ===== src/Shipping.antt =====
-- services/shipping: one shipment for an order, its tracking number and its status.
pub mod Model
pub mod Service
pub mod Consumers
pub mod Main
pub mod Routes
pub mod Create
pub mod Bounds
pub mod Update
pub mod Coherence
mod Tests
