-- ===== src/Legal/Ingest/Rows/Extends.antt =====
-- src/legal/ingest.py: a load only adds rows behind those that are there.
use mathlib.Core.List.{append_assoc, append-nil, mem-append_left}
use eu_ai_act_compliance.Prelude.{ℕ, String, List, [], ◌∷◌, ◌++◌, ◌≡◌, refl, ap, sym, ◌∙◌, Mem}
use eu_ai_act_compliance.Calendar.{DateTime}
use eu_ai_act_compliance.Persistence.Models.{
  SourceDocument, Requirement, RetrievalMethod, EntityType,
}
use eu_ai_act_compliance.Legal.Store.{LegalStore}
use eu_ai_act_compliance.Legal.Ingest.Seed.{ProvisionSeed, RequirementSeed, CrosswalkSeed}
use eu_ai_act_compliance.Legal.Ingest.Rows.{
  Draft, add_document, add_provenance, add_provision, add_requirement, add_condition, add_exception,
  add_crosswalk,
}

-- Rows were added to a table behind those that it held.
pub record Added {A : Type 0} (table after : List A) : Type 0 where
  pub rows : List A
  pub behind : after ≡ table ++ rows

module _ {A : Type 0} where
  none_added : (table : List A) → Added table table
  none_added table = record { rows = []; behind = sym (append-nil table) }

  one_added : (table : List A) (row : A) → Added table (table ++ (row ∷ []))
  one_added table row = record { rows = row ∷ []; behind = refl }

  both_added : {a b c : List A} → Added a b → Added b c → Added a c
  both_added {a = a} p q = record {
    rows = p.rows ++ q.rows;
    behind = q.behind ∙ ap (λ t. t ++ q.rows) p.behind ∙ append_assoc a p.rows q.rows;
  }

  pub Mem-Added : {a b : List A} {x : A} → Added a b → Mem x a → Mem x b
  Mem-Added p m = rw p.behind (mem-append_left p.rows m)

pub record Extends (store after : LegalStore) : Type 0 where
  pub source_documents : Added store.source_documents after.source_documents
  pub legal_provisions : Added store.legal_provisions after.legal_provisions
  pub requirements : Added store.requirements after.requirements
  pub applicability_conditions : Added store.applicability_conditions after.applicability_conditions
  pub exceptions : Added store.exceptions after.exceptions
  pub framework_crosswalks : Added store.framework_crosswalks after.framework_crosswalks
  pub provenance_records : Added store.provenance_records after.provenance_records

pub Extends-refl : (store : LegalStore) → Extends store store
Extends-refl store = record {
  source_documents = none_added _;
  legal_provisions = none_added _;
  requirements = none_added _;
  applicability_conditions = none_added _;
  exceptions = none_added _;
  framework_crosswalks = none_added _;
  provenance_records = none_added _;
}

pub Extends-trans : {a b c : LegalStore} → Extends a b → Extends b c → Extends a c
Extends-trans p q = record {
  source_documents = both_added p.source_documents q.source_documents;
  legal_provisions = both_added p.legal_provisions q.legal_provisions;
  requirements = both_added p.requirements q.requirements;
  applicability_conditions = both_added p.applicability_conditions q.applicability_conditions;
  exceptions = both_added p.exceptions q.exceptions;
  framework_crosswalks = both_added p.framework_crosswalks q.framework_crosswalks;
  provenance_records = both_added p.provenance_records q.provenance_records;
}

module _ (uuid : ℕ → String) (now : DateTime) (draft : Draft) where
  pub add_document-Extends :
      (document : SourceDocument) → Extends draft.store (add_document uuid now document draft).store
  unfolding add_document
  add_document-Extends document = record {
    source_documents = one_added _ _;
    legal_provisions = none_added _;
    requirements = none_added _;
    applicability_conditions = none_added _;
    exceptions = none_added _;
    framework_crosswalks = none_added _;
    provenance_records = none_added _;
  }

  pub add_provenance-Extends :
      (document : SourceDocument) (e : EntityType) (r : RetrievalMethod) (id : String)
      → Extends draft.store (add_provenance uuid now document e r id draft).store
  unfolding add_provenance
  add_provenance-Extends document e r id = record {
    source_documents = none_added _;
    legal_provisions = none_added _;
    requirements = none_added _;
    applicability_conditions = none_added _;
    exceptions = none_added _;
    framework_crosswalks = none_added _;
    provenance_records = one_added _ _;
  }

  pub add_provision-Extends :
      (document : SourceDocument) (seed : ProvisionSeed) (text : String)
      → Extends draft.store (add_provision uuid now document seed text draft).store
  unfolding add_provision add_provenance
  add_provision-Extends document seed text = record {
    source_documents = none_added _;
    legal_provisions = one_added _ _;
    requirements = none_added _;
    applicability_conditions = none_added _;
    exceptions = none_added _;
    framework_crosswalks = none_added _;
    provenance_records = one_added _ _;
  }

  pub add_requirement-Extends :
      (seed : RequirementSeed) (provision_id : String)
      → Extends draft.store (add_requirement uuid now seed provision_id draft).store
  unfolding add_requirement
  add_requirement-Extends seed provision_id = record {
    source_documents = none_added _;
    legal_provisions = none_added _;
    requirements = one_added _ _;
    applicability_conditions = none_added _;
    exceptions = none_added _;
    framework_crosswalks = none_added _;
    provenance_records = none_added _;
  }

  pub add_condition-Extends :
      (seed : RequirementSeed) (requirement_id : String)
      → Extends draft.store (add_condition uuid now seed requirement_id draft).store
  unfolding add_condition
  add_condition-Extends seed requirement_id = record {
    source_documents = none_added _;
    legal_provisions = none_added _;
    requirements = none_added _;
    applicability_conditions = one_added _ _;
    exceptions = none_added _;
    framework_crosswalks = none_added _;
    provenance_records = none_added _;
  }

  pub add_exception-Extends :
      (requirement_id provision_id description : String)
      → Extends draft.store
          (add_exception uuid now requirement_id provision_id description draft).store
  unfolding add_exception
  add_exception-Extends requirement_id provision_id description = record {
    source_documents = none_added _;
    legal_provisions = none_added _;
    requirements = none_added _;
    applicability_conditions = none_added _;
    exceptions = one_added _ _;
    framework_crosswalks = none_added _;
    provenance_records = none_added _;
  }

  pub add_crosswalk-Extends :
      (framework_name source_url : String) (seed : CrosswalkSeed) (text : String)
      (requirement : Requirement)
      → Extends draft.store
          (add_crosswalk uuid now framework_name source_url seed text requirement draft).store
  unfolding add_crosswalk
  add_crosswalk-Extends framework_name source_url seed text requirement = record {
    source_documents = none_added _;
    legal_provisions = none_added _;
    requirements = none_added _;
    applicability_conditions = none_added _;
    exceptions = none_added _;
    framework_crosswalks = one_added _ _;
    provenance_records = none_added _;
  }
