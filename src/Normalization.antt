-- ===== src/Normalization.antt =====
-- app/normalization: deliveries of providers become rows of the tables.
pub mod Fnmatch
pub mod Patterns
pub mod Deployments
pub mod Deliveries
pub mod Reclassify
mod Tests
