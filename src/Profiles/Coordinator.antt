-- ===== src/Profiles/Coordinator.antt =====
-- packages/shared/src/nostr/services/profile-request-coordinator.ts, the class: one record with the
-- coordination state, and a function for each step between two awaits. The cache, the persistent
-- negative cache and the relay client are the other parties: a flush hands the client a batch, and the
-- answer comes back as a step of its own. A timer is the instant at which it fires. Times are
-- milliseconds. The version tells of a change; Waiting has the listener
-- of a caller that waits.
pub mod Ops
pub mod Flush
pub mod System
pub mod InFlight
pub mod SingleFlight
pub mod Pace
pub mod Pacing
pub mod Progress
pub mod Retry
pub mod Waiting
mod Tests
