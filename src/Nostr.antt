-- ===== src/Nostr.antt =====
-- The bridge's own access to relays: packages/bridge/src/core/nostr.
pub mod AuthedPublish
pub mod Demand
mod Tests
