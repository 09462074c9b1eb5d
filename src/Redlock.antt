-- ===== src/Redlock.antt =====
-- packages/distribution-redlock: the Redlock algorithm over several Redis nodes.
pub mod Redis
pub mod Scripts
pub mod Voting
pub mod Cluster
pub mod Execute
pub mod Service
pub mod Holding
pub mod Wiring
mod Examples
