-- ===== src/Legal/Ingest/Rows.antt =====
-- src/legal/ingest.py: the rows that a load adds to the tables. Reading the files is a parameter.
pub mod Extends
use eu_ai_act_compliance.Prelude.{
  ℕ, ◌+◌, String, Bool, true, false, ◌&&◌, List, [], ◌∷◌, ◌++◌, Option, none, some, str_eq, is_some,
  first, is_empty, not, if◌then◌else◌,
}
use eu_ai_act_compliance.Result.{Result, ok, err, key_error}
use eu_ai_act_compliance.Calendar.{Date, DateTime}
use eu_ai_act_compliance.Persistence.Models.{
  SourceDocument, LegalProvision, Requirement, ApplicabilityCondition, LegalException,
  FrameworkCrosswalk, ProvenanceRecord, RetrievalMethod, EntityType,
}
use eu_ai_act_compliance.Legal.Store.{LegalStore}
use eu_ai_act_compliance.Legal.Ingest.Seed.{ProvisionSeed, RequirementSeed, CrosswalkSeed}

-- The entries of metadata.json that are read.
pub record Metadata : Type 0 where
  pub source_document_key : String
  pub celex_id : String
  pub official_title : String
  pub oj_reference : String
  pub date_of_act : String
  pub date_published : String
  pub date_entry_into_force : String
  pub source_url : String
  pub raw_fetch_sha256 : String
  pub retrieved_at : String

pub record Files : Type 0 where
  -- `json.loads((dir / "metadata.json").read_text())`
  pub metadata : (dir : String) → Result Metadata
  -- `(dir / file).read_text()`
  pub read_text : (dir file : String) → Result String
  -- `date.fromisoformat(text)`, and that of a datetime once "Z" is replaced by "+00:00"
  pub date_fromisoformat : String → Result Date
  pub datetime_fromisoformat : String → Result DateTime

-- The tables with the rows of the session, and how many ids were drawn.
pub record Draft : Type 0 where
  pub store : LegalStore
  pub drawn : ℕ

-- `uuid` gives the ids in the order in which they are drawn; rows are made at the time `now`.
module _ (uuid : ℕ → String) (now : DateTime) where
  unfoldable pub add_document : SourceDocument → Draft → Draft
  add_document document draft = record {
    store = record draft.store {
      source_documents = draft.store.source_documents ++ (document ∷ []);
    };
    drawn = draft.drawn + 1;
  }

  unfoldable pub add_provenance :
      SourceDocument → EntityType → RetrievalMethod → (entity_id : String) → Draft → Draft
  add_provenance document entity_type retrieval_method entity_id draft = record {
    store = record draft.store {
      provenance_records =
          draft.store.provenance_records
          ++ (record {
            id = uuid draft.drawn;
            entity_type = entity_type;
            entity_id = entity_id;
            source_document_id = document.id;
            retrieved_at = document.retrieved_at;
            retrieval_method = retrieval_method;
            url = document.source_url;
            created_at = now;
          }
              ∷ []);
    };
    drawn = draft.drawn + 1;
  }

  unfoldable pub add_provision : SourceDocument → ProvisionSeed → (text : String) → Draft → Draft
  unfolding add_provenance
  add_provision document seed text draft =
      add_provenance document EntityType.provision RetrievalMethod.automated (uuid draft.drawn)
        (record {
          store = record draft.store {
            legal_provisions =
                draft.store.legal_provisions
                ++ (record {
                  id = uuid draft.drawn;
                  source_document_id = document.id;
                  citation = seed.citation;
                  heading = some seed.heading;
                  text = text;
                  effective_date = seed.effective_date;
                  version = 1;
                  superseded_by_id = none;
                  created_at = now;
                }
                    ∷ []);
          };
          drawn = draft.drawn + 1;
        })

  unfoldable pub add_requirement : RequirementSeed → (provision_id : String) → Draft → Draft
  add_requirement seed provision_id draft = record {
    store = record draft.store {
      requirements =
          draft.store.requirements
          ++ (record {
            id = uuid draft.drawn;
            requirement_key = seed.requirement_key;
            version = 1;
            summary = seed.summary;
            primary_provision_id = provision_id;
            superseded_by_id = none;
            created_at = now;
          }
              ∷ []);
    };
    drawn = draft.drawn + 1;
  }

  unfoldable pub add_condition : RequirementSeed → (requirement_id : String) → Draft → Draft
  add_condition seed requirement_id draft = record {
    store = record draft.store {
      applicability_conditions =
          draft.store.applicability_conditions
          ++ (record {
            id = uuid draft.drawn;
            requirement_id = requirement_id;
            actor_role = seed.actor_role;
            sector = none;
            annex_iii_category = seed.annex_iii_category;
            temporal_start = seed.temporal_start;
            temporal_end = none;
          }
              ∷ []);
    };
    drawn = draft.drawn + 1;
  }

  unfoldable pub add_exception : (requirement_id provision_id description : String) → Draft → Draft
  add_exception requirement_id provision_id description draft = record {
    store = record draft.store {
      exceptions =
          draft.store.exceptions
          ++ (record {
            id = uuid draft.drawn;
            requirement_id = requirement_id;
            description = description;
            source_provision_id = provision_id;
          }
              ∷ []);
    };
    drawn = draft.drawn + 1;
  }

  unfoldable pub add_crosswalk :
      (framework_name source_url : String) (seed : CrosswalkSeed) (text : String)
      → Requirement
      → Draft
      → Draft
  add_crosswalk framework_name source_url seed text requirement draft = record {
    store = record draft.store {
      framework_crosswalks =
          draft.store.framework_crosswalks
          ++ (record {
            id = uuid draft.drawn;
            requirement_id = requirement.id;
            framework_name = framework_name;
            citation = seed.citation;
            citation_text = text;
            source_url = source_url;
            created_at = now;
          }
              ∷ []);
    };
    drawn = draft.drawn + 1;
  }
