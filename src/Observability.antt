-- ===== src/Observability.antt =====
-- src/observability/.
pub mod Retention
pub mod Instrumentation
pub mod Serialization
pub mod AssessmentLog
