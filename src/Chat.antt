-- ===== src/Chat.antt =====
-- The chat bridge: packages/bridge/src/core/chat and core/relays.ts.
pub mod Fingerprint
pub mod Relays
pub mod State
pub mod Nostr
pub mod Source
pub mod Firehose
pub mod Rooms
pub mod System
mod Tests
