-- ===== src/Schemas.antt =====
-- schemas/: the structured outputs that the language model has to produce.
pub mod Enums
pub mod Floats
pub mod Facts
pub mod Classification
pub mod Evidence
pub mod Validity
pub mod Sufficiency
