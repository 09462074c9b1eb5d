-- ===== src/Common.antt =====
-- packages/common.
pub mod Engine
pub mod Merge
pub mod Modules
pub mod Stringify
mod Examples
