-- ===== src/Legal.antt =====
-- src/legal/.
pub mod Store
pub mod Queries
pub mod Versioning
pub mod Deadlines
pub mod UpdateAlerts
pub mod Ingest
