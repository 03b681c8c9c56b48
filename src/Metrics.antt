-- ===== src/Metrics.antt =====
-- app/metrics: the DORA and cycle-time calculations.
pub mod Rounding
pub mod Percentiles
pub mod Snapshot
pub mod Dora
pub mod CycleTime
pub mod Service
pub mod Calendar
pub mod Buckets
mod Tests
mod BucketTests
