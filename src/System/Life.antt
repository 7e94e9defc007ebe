-- ===== src/System/Life.antt =====
-- The life of one order across the services: which messages about it are on their way.
pub mod Stage
pub mod Serve
pub mod At
pub mod Order
pub mod Stock
pub mod Short
pub mod Shipment
pub mod Email
pub mod Deliveries
pub mod Fulfilled
pub mod Declined
pub mod Late
