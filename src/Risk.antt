-- ===== src/Risk.antt =====
-- app/risk: stale pull requests, and the outcomes that label merged ones.
pub mod Stamp
pub mod Stale
pub mod Matching
pub mod Outcomes
mod Tests
