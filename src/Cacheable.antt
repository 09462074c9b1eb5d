-- ===== src/Cacheable.antt =====
-- packages/cacheable: keys, metadata and the wrappers of decorated methods.
pub mod Keys
pub mod Metadata
pub mod Wrappers
pub mod Explorer
pub mod Pending
pub mod Wiring
mod Examples
