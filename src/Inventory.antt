-- ===== src/Inventory.antt =====
-- services/inventory: products and the stock that orders hold.
pub mod Model
pub mod Service
pub mod Stock
pub mod Invariant
pub mod Reserve
pub mod Units
pub mod Release
pub mod Safety
pub mod Sessions
pub mod Interleaving
pub mod Alone
pub mod Create
pub mod Consumers
pub mod Main
pub mod Routes
pub mod Coherence
pub mod Decision
pub mod ReadThrough
mod Tests
