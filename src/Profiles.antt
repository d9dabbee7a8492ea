-- ===== src/Profiles.antt =====
-- The profile stack of packages/shared/src/nostr: the retry ledger, the persistent negative cache,
-- and the coordinator that owns every profile fetch.
pub mod Backoff
pub mod MissCache
pub mod Cache
pub mod Kind0
pub mod Ledger
pub mod Coordinator
mod Tests
