-- ===== src/Gateway.antt =====
-- services/gateway: accounts, tokens, and the proxy in front of the internal services.
pub mod Model
pub mod Accounts
pub mod Dependencies
pub mod Proxy
pub mod Routes
pub mod Main
pub mod Register
pub mod Session
pub mod Headers
pub mod Identity
pub mod Caller
pub mod Carried
pub mod Edge
mod Tests
