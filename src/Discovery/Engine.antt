-- ===== src/Discovery/Engine.antt =====
-- discovery-bridge.service.ts: the discovery lifecycle, a child for each part.
pub mod State
pub mod Steps
pub mod Cycle
pub mod Trace
pub mod Refine
pub mod Safety
pub mod Tally
pub mod Lifecycle
pub mod Steady
