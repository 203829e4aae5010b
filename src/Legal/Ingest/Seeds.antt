-- ===== src/Legal/Ingest/Seeds.antt =====
-- src/legal/ingest.py: the seed corpus.
pub mod Provisions
pub mod Practices
pub mod Areas
pub mod Duties
pub mod Crosswalks
