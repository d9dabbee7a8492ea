-- ===== src/Site.antt =====
-- The site that shows what the bridge publishes: packages/site/src.
pub mod Queries
mod Tests
