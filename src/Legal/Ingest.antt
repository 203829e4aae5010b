-- ===== src/Legal/Ingest.antt =====
-- src/legal/ingest.py: the legal tables are filled from the seed corpus.
pub mod Seed
pub mod Seeds
pub mod Rows
pub mod Load
pub mod Run
