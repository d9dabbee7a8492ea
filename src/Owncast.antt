-- ===== src/Owncast.antt =====
-- The Owncast side of the bridge: packages/bridge/src/sources/owncast/chat and discovery.
pub mod Directory
pub mod Adapter
pub mod Listener
pub mod Pool
pub mod Html
pub mod Liveness
mod Tests
