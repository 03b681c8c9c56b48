-- ===== src/Jobs.antt =====
-- app/jobs: the durable queue in the table `processing_jobs`.
pub mod Row
pub mod Table
pub mod Errors
pub mod Sanitize
pub mod Retry
pub mod Invariant
pub mod Keeps
pub mod Claimer
pub mod Dispatcher
pub mod QueueMetrics
pub mod Advisory
pub mod Lease
mod Tests
mod LeaseTests
