-- ===== src/Examples/Ingested.antt =====
-- The ingestion into empty tables, with files that all hold the same text.
use eu_ai_act_compliance.Prelude.{ℕ, String, List, [], ◌∷◌, ◌≡◌, refl, All, none, some}
use eu_ai_act_compliance.Result.{ok}
use eu_ai_act_compliance.Schemas.Enums.ActorRole.{any}
use eu_ai_act_compliance.Persistence.Engine.{in_table_order}
use eu_ai_act_compliance.Legal.Ingest.Seed.{
  ProvisionSeed, RequirementSeed, provision_seed, exception_seed, requirement_seed,
}
use eu_ai_act_compliance.Legal.Ingest.Rows.{
  Metadata, Files, Draft, add_document, add_provenance, add_provision, add_requirement,
  add_condition, add_exception, add_crosswalk,
}
use eu_ai_act_compliance.Legal.Ingest.Rows.Extends.{Extends}
use eu_ai_act_compliance.Legal.Ingest.Load.{
  committed, by_citation, source_present, document_of, load_provisions, load_exceptions,
  load_requirement, load_requirements, load_source, ingest_source, crosswalks_seeded, the_one,
  load_crosswalks, ingest_framework,
}
use eu_ai_act_compliance.Legal.Ingest.Load.Loaded.{IsIngested}
use eu_ai_act_compliance.Legal.Ingest.Load.Sources.{ingest_source-AllIngested}
use eu_ai_act_compliance.Legal.Ingest.Run.{ingest_crosswalks, ingest_seed}
use eu_ai_act_compliance.Legal.Ingest.Run.Idempotent.{ingest_seed-idempotent}
use eu_ai_act_compliance.Legal.Ingest.Seeds.Provisions.{provision_seeds, gdpr_provision_seeds}
use eu_ai_act_compliance.Legal.Ingest.Seeds.Duties.{
  all_requirement_seeds, gdpr_obligation_requirements,
}
use eu_ai_act_compliance.Legal.Ingest.Seeds.Crosswalks.{
  nist_crosswalk_seeds, nist_csf_crosswalk_seeds,
}
use eu_ai_act_compliance.Examples.{in_2025}

-- The metadata of a directory, which is its own key.
abbrev metadata_of : String → Metadata
metadata_of dir = record {
  source_document_key = dir;
  celex_id = "32024R1689";
  official_title = "Regulation";
  oj_reference = "OJ L";
  date_of_act = "2025-02-02";
  date_published = "2025-02-02";
  date_entry_into_force = "2025-02-02";
  source_url = "https://eur-lex.europa.eu";
  raw_fetch_sha256 = "00";
  retrieved_at = "2025-02-02T00:00:00Z";
}

abbrev files : Files
files = record {
  metadata = λ dir. ok (metadata_of dir);
  read_text = λ dir file. ok "The text.";
  date_fromisoformat = λ s. ok in_2025;
  datetime_fromisoformat = λ s. ok 0;
}

abbrev uuid : ℕ → String
uuid n = "id"

abbrev empty : Draft
empty = record {
  store = record {
    source_documents = [];
    legal_provisions = [];
    requirements = [];
    applicability_conditions = [];
    exceptions = [];
    framework_crosswalks = [];
    provenance_records = [];
  };
  drawn = 0;
}

abbrev provisions : List ProvisionSeed
provisions = provision_seed "Article 5" "Prohibited practices" "article_5.txt" in_2025 ∷ []

abbrev requirements : List RequirementSeed
requirements =
    requirement_seed "EU-AI-ACT-ART5-1-D" "Prohibits prediction." "Article 5" (some any) none
      in_2025 (exception_seed "Human assessment." "Article 5" ∷ [])
    ∷ []

ingest_source-AllIngested_example :
    All
      (λ seed.
        IsIngested files "act" provisions seed
          (ingest_source in_table_order files uuid 0 "act" provisions requirements empty).1.store)
      requirements
unfolding ingest_source source_present committed load_source load_provisions load_requirements
    load_requirement load_exceptions by_citation document_of
ingest_source-AllIngested_example =
    ingest_source-AllIngested in_table_order files uuid 0 "act" provisions requirements empty
      (metadata_of "act") refl refl refl

ingest_seed-succeeds : (ingest_seed in_table_order files uuid 0 empty).0 ≡ ok tt
unfolding ingest_seed ingest_crosswalks ingest_framework crosswalks_seeded the_one load_crosswalks
    ingest_source source_present committed load_source load_provisions load_requirements
    load_requirement load_exceptions by_citation document_of add_document add_provenance
    add_provision add_requirement add_condition add_exception add_crosswalk provision_seeds
    gdpr_provision_seeds all_requirement_seeds gdpr_obligation_requirements nist_crosswalk_seeds
    nist_csf_crosswalk_seeds
ingest_seed-succeeds = refl

ingest_seed-idempotent_example :
    Extends empty.store (ingest_seed in_table_order files uuid 0 empty).1.store
    × (ingest_seed in_table_order files uuid 0 (ingest_seed in_table_order files uuid 0 empty).1
        ≡ (ok tt, (ingest_seed in_table_order files uuid 0 empty).1))
ingest_seed-idempotent_example =
    ingest_seed-idempotent in_table_order files uuid 0 empty ingest_seed-succeeds
