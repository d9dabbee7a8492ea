-- ===== src/Discovery.antt =====
-- The discovery side of the bridge worker, packages/bridge/src/core: the instance rows, the events that
-- it publishes, and the poll cycle that keeps both in step with a source directory.
pub mod Migrations
pub mod Tags
pub mod Store
pub mod Publisher
pub mod Engine
mod Tests
