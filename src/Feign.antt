-- ===== src/Feign.antt =====
-- packages/feign/src/feign: the clients that are declared by decorators.
pub mod Routes
pub mod Objects
pub mod Client
pub mod Configuration
pub mod DefaultFetcher
pub mod Declaring
mod Examples
