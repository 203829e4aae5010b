-- ===== src/Legal/Store.antt =====
-- The tables of legal knowledge, which no tenant owns.
use eu_ai_act_compliance.Prelude.{List, []}
use eu_ai_act_compliance.Persistence.Models.{
  SourceDocument, LegalProvision, Requirement, ApplicabilityCondition, LegalException,
  FrameworkCrosswalk, ProvenanceRecord,
}

pub record LegalStore : Type 0 where
  pub source_documents : List SourceDocument
  pub legal_provisions : List LegalProvision
  pub requirements : List Requirement
  pub applicability_conditions : List ApplicabilityCondition
  pub exceptions : List LegalException
  pub framework_crosswalks : List FrameworkCrosswalk
  pub provenance_records : List ProvenanceRecord

abbrev pub empty : LegalStore
empty = record {
  source_documents = [];
  legal_provisions = [];
  requirements = [];
  applicability_conditions = [];
  exceptions = [];
  framework_crosswalks = [];
  provenance_records = [];
}
