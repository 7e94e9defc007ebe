-- ===== src/Shared.antt =====
-- shared/shared: the library that every service installs.
pub mod Outcome
pub mod Cache
pub mod Event
pub mod Broker
pub mod Connection
pub mod Consumer
pub mod Platform
pub mod Lifespan
pub mod Middleware
pub mod Logging
pub mod Auth
pub mod Security
