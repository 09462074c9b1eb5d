-- ===== src/Transaction.antt =====
-- packages/transactional, packages/transactional-typeorm and packages/transactional-mongoose.
pub mod Rollback
pub mod World
pub mod Adapter
pub mod Publisher
pub mod Sessions
pub mod Decoration
pub mod Metadata
pub mod Proxies
mod Examples
