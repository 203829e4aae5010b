-- ===== src/Legal/Ingest/Load.antt =====
-- src/legal/ingest.py: loading one source and one framework. What a load adds is committed at its
-- end: one that raises adds nothing.
pub mod Growth
pub mod Once
pub mod Corpus
pub mod Loaded
pub mod Sources
use eu_ai_act_compliance.Prelude.{
  ℕ, ◌+◌, String, Bool, true, false, ◌&&◌, List, [], ◌∷◌, ◌++◌, Option, none, some, str_eq, is_some,
  first, is_empty, not, if◌then◌else◌,
}
use eu_ai_act_compliance.Result.{environment, key_error, Result, ok, err, ◌>>=◌}
use eu_ai_act_compliance.Exec.{Exec}
use eu_ai_act_compliance.Calendar.{DateTime}
use eu_ai_act_compliance.Persistence.Engine.{Engine}
use eu_ai_act_compliance.Persistence.Models.{
  SourceDocument, Requirement, FrameworkCrosswalk, RetrievalMethod, EntityType,
}
use eu_ai_act_compliance.Legal.Store.{LegalStore}
use eu_ai_act_compliance.Legal.Queries.{is_current}
use eu_ai_act_compliance.Legal.Ingest.Seed.{
  ProvisionSeed, ExceptionSeed, RequirementSeed, CrosswalkSeed,
}
use eu_ai_act_compliance.Legal.Ingest.Rows.{
  Metadata, Files, Draft, add_document, add_provenance, add_provision, add_requirement,
  add_condition, add_exception, add_crosswalk,
}

-- `session.commit()` after a load, and the end of the session after one that raised
unfoldable pub committed : (Draft → Result Draft) → Exec Draft (Unit {0})
committed load before = elim (load before) [ ok after ↦ (ok tt, after) | err e ↦ (err e, before) ]

-- `provisions_by_citation[citation]`, as the id of the provision
unfoldable pub by_citation : String → List (String × String) → Result String
by_citation citation [] = err key_error
by_citation citation ((c, id) ∷ rest) =
    if str_eq c citation then ok id else by_citation citation rest

-- `uuid` gives the ids in the order in which they are drawn; rows are made at the time `now`.
module _ (engine : Engine) (files : Files) (uuid : ℕ → String) (now : DateTime) where
  unfoldable pub crosswalks_seeded : (framework_name : String) → LegalStore → Bool
  crosswalks_seeded framework_name store = is_some (
      first (
        engine.rows FrameworkCrosswalk (λ c. str_eq c.framework_name framework_name)
          store.framework_crosswalks))

  -- `.one()`
  unfoldable pub the_one : List Requirement → Result Requirement
  the_one (r ∷ []) = ok r
  the_one rows = err (environment 1)

  unfoldable pub load_crosswalks :
      (framework_name source_url dir : String) → List CrosswalkSeed → Draft → Result Draft
  unfolding the_one add_crosswalk
  load_crosswalks framework_name source_url dir [] draft = ok draft
  load_crosswalks framework_name source_url dir (seed ∷ seeds) draft = do
    requirement ← the_one (
        engine.rows Requirement (λ r. str_eq r.requirement_key seed.requirement_key && is_current r)
          draft.store.requirements)
    text ← files.read_text dir seed.text_file
    load_crosswalks framework_name source_url dir seeds
        (add_crosswalk uuid now framework_name source_url seed text requirement draft)

  -- `_ingest_crosswalks`
  unfoldable pub ingest_framework :
      (framework_name source_url dir : String) → List CrosswalkSeed → Exec Draft (Unit {0})
  unfolding committed crosswalks_seeded
  ingest_framework framework_name source_url dir seeds draft =
      if crosswalks_seeded framework_name draft.store
      then (ok tt, draft)
      else committed (load_crosswalks framework_name source_url dir seeds) draft

  unfoldable pub source_present : (source_key : String) → LegalStore → Bool
  source_present source_key store = is_some (
      first
        (engine.rows SourceDocument (λ d. str_eq d.source_key source_key) store.source_documents))

  unfoldable pub seed_is_present : LegalStore → Bool
  unfolding source_present
  seed_is_present store =
      source_present "eu_ai_act_2024_1689" store && source_present "gdpr_2016_679" store

  -- The SourceDocument of the metadata.
  unfoldable pub document_of : (id : String) → Metadata → Result SourceDocument
  document_of id metadata = do
    date_of_act ← files.date_fromisoformat metadata.date_of_act
    date_published ← files.date_fromisoformat metadata.date_published
    date_entry_into_force ← files.date_fromisoformat metadata.date_entry_into_force
    retrieved_at ← files.datetime_fromisoformat metadata.retrieved_at
    ok (record {
      id = id;
      source_key = metadata.source_document_key;
      celex_id = metadata.celex_id;
      official_title = metadata.official_title;
      oj_reference = metadata.oj_reference;
      date_of_act = date_of_act;
      date_published = date_published;
      date_entry_into_force = date_entry_into_force;
      source_url = metadata.source_url;
      raw_fetch_sha256 = metadata.raw_fetch_sha256;
      retrieved_at = retrieved_at;
      created_at = now;
    })

  -- The loop over the provisions, with `provisions_by_citation`.
  unfoldable pub load_provisions :
      (dir : String)
      → SourceDocument
      → List ProvisionSeed
      → List (String × String) × Draft
      → Result (List (String × String) × Draft)
  unfolding add_provision
  load_provisions dir document [] state = ok state
  load_provisions dir document (seed ∷ seeds) (provisions, draft) = do
    text ← files.read_text dir seed.text_file
    load_provisions dir document seeds (
      (seed.citation, uuid draft.drawn) ∷ provisions,
      add_provision uuid now document seed text draft,
    )

  unfoldable pub load_exceptions :
      (provisions : List (String × String)) (requirement_id : String)
      → List ExceptionSeed
      → Draft
      → Result Draft
  unfolding add_exception
  load_exceptions provisions requirement_id [] draft = ok draft
  load_exceptions provisions requirement_id (exc ∷ excs) draft = do
    provision_id ← by_citation exc.provision_citation provisions
    load_exceptions provisions requirement_id excs
        (add_exception uuid now requirement_id provision_id exc.description draft)

  -- What the loop does for one requirement.
  unfoldable pub load_requirement :
      (provisions : List (String × String))
      → SourceDocument
      → RequirementSeed
      → Draft
      → Result Draft
  unfolding load_exceptions
  load_requirement provisions document seed draft = do
    provision_id ← by_citation seed.provision_citation provisions
    described ← load_exceptions provisions (uuid draft.drawn) seed.exceptions (
        add_condition uuid now seed (uuid draft.drawn)
          (add_requirement uuid now seed provision_id draft))
    ok (
        add_provenance uuid now document EntityType.requirement RetrievalMethod.manual
          (uuid draft.drawn) described)

  unfoldable pub load_requirements :
      (provisions : List (String × String))
      → SourceDocument
      → List RequirementSeed
      → Draft
      → Result Draft
  unfolding load_requirement
  load_requirements provisions document [] draft = ok draft
  load_requirements provisions document (seed ∷ seeds) draft = do
    loaded ← load_requirement provisions document seed draft
    load_requirements provisions document seeds loaded

  unfoldable pub load_source :
      (dir : String) → Metadata → List ProvisionSeed → List RequirementSeed → Draft → Result Draft
  unfolding document_of
  load_source dir metadata provision_seeds requirement_seeds draft = do
    document ← document_of (uuid draft.drawn) metadata
    (provisions, provided) ←
        load_provisions dir document provision_seeds ([], add_document uuid now document draft)
    load_requirements provisions document requirement_seeds (
        add_provenance uuid now document EntityType.source_document RetrievalMethod.automated
          document.id provided)

  with_metadata :
      (dir : String)
      → List ProvisionSeed
      → List RequirementSeed
      → Result Metadata
      → Exec Draft (Unit {0})
  unfolding source_present load_source committed
  with_metadata dir provision_seeds requirement_seeds (err e) draft = (err e, draft)
  with_metadata dir provision_seeds requirement_seeds (ok metadata) draft =
      if source_present metadata.source_document_key draft.store
      then (ok tt, draft)
      else committed (load_source dir metadata provision_seeds requirement_seeds) draft

  -- `_ingest_source`
  unfoldable pub ingest_source :
      (dir : String) → List ProvisionSeed → List RequirementSeed → Exec Draft (Unit {0})
  unfolding with_metadata
  ingest_source dir provision_seeds requirement_seeds =
      with_metadata dir provision_seeds requirement_seeds (files.metadata dir)
