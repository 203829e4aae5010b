-- ===== src/Api.antt =====
-- src/api/.
pub mod RateLimit
pub mod Access
pub mod Routes
