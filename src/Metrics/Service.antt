-- ===== src/Metrics/Service.antt =====
-- app/metrics/service.py: what is derived from the normalized tables, and the snapshots of metrics.
pub mod Snapshots
pub mod Queries
pub mod Database
pub mod History
pub mod Recalculate
pub mod Enqueue
pub mod Iso
pub mod Links
pub mod Incidents
mod Tests
mod EnqueueTests
