-- ===== src/Schemas/Enums.antt =====
-- schemas/enums.py, a module for each enumeration: its members, their values, equality, and the
-- look-up by value.
pub mod Lookup
pub mod ActorRole
pub mod Category
pub mod State
pub mod EvidenceStatus
pub mod Dimension
pub mod UserRole
pub mod Severity
