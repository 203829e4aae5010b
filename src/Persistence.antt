-- ===== src/Persistence.antt =====
-- src/persistence/.
pub mod Models
pub mod Engine
pub mod Tenancy
