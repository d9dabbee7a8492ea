-- ===== src/Client.antt =====
-- The shared relay client: packages/shared/src/nostr/services/client.service.ts.
pub mod Lru
pub mod Replaceable
pub mod Loader
pub mod Cooldown
pub mod Query
pub mod Subscription
pub mod Signing
pub mod Batch
pub mod Verifier
pub mod Publish
mod Tests
pub mod Relays
