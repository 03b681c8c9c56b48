-- ===== src/Alerts.antt =====
-- app/jobs/handlers/evaluate_alerts.py: when a rule fires, and the deliveries that it queues.
pub mod Median
pub mod Enqueue
pub mod Aggregate
pub mod Evaluate
pub mod Cooldown
mod Tests
