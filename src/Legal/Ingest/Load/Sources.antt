-- ===== src/Legal/Ingest/Load/Sources.antt =====
-- src/legal/ingest.py: a source that was absent is loaded whole.
use eu_ai_act_compliance.Prelude.{ℕ, String, false, List, [], ◌≡◌, All}
use eu_ai_act_compliance.Result.{ok, >>=-eq-ok}
use eu_ai_act_compliance.Calendar.{DateTime}
use eu_ai_act_compliance.Persistence.Engine.{Engine}
use eu_ai_act_compliance.Persistence.Models.{RetrievalMethod, EntityType}
use eu_ai_act_compliance.Legal.Ingest.Seed.{ProvisionSeed, RequirementSeed}
use eu_ai_act_compliance.Legal.Ingest.Rows.{Metadata, Files, Draft, add_document, add_provenance}
use eu_ai_act_compliance.Legal.Ingest.Rows.Extends.{add_provenance-Extends}
use eu_ai_act_compliance.Legal.Ingest.Load.{
  source_present, load_provisions, load_source, document_of, with_metadata, ingest_source,
}
use eu_ai_act_compliance.Legal.Ingest.Load.Once.{committed-eq-ok}
use eu_ai_act_compliance.Legal.Ingest.Load.Corpus.{AllVerbatim-Extends, load_provisions-AllVerbatim}
use eu_ai_act_compliance.Legal.Ingest.Load.Loaded.{IsIngested, load_requirements-AllIngested}

module _ (engine : Engine) (files : Files) (uuid : ℕ → String) (now : DateTime) (dir : String)
    (provision_seeds : List ProvisionSeed) (requirement_seeds : List RequirementSeed)
    (draft : Draft) where
  load_source-AllIngested :
      (metadata : Metadata) {after : Draft}
      → load_source engine files uuid now dir metadata provision_seeds requirement_seeds draft
        ≡ ok after
      → All (λ seed. IsIngested files dir provision_seeds seed after.store) requirement_seeds
  unfolding load_source
  load_source-AllIngested metadata h =
      let (document, made, h') =
        >>=-eq-ok (document_of engine files uuid now (uuid draft.drawn) metadata) _ h in
      let documented = add_document uuid now document draft in
      let ((provisions, provided), loaded, last) =
        >>=-eq-ok
          (load_provisions engine files uuid now dir document provision_seeds ([], documented)) _
          h' in
      let verbatim =
        load_provisions-AllVerbatim files dir provision_seeds engine uuid now document
          provision_seeds [] documented (λ seed m. m) tt loaded in
      load_requirements-AllIngested files dir provision_seeds engine uuid now provisions document
        requirement_seeds
        (add_provenance uuid now document EntityType.source_document RetrievalMethod.automated
          document.id provided)
        (AllVerbatim-Extends files dir provision_seeds provisions
          (add_provenance-Extends uuid now provided document EntityType.source_document
            RetrievalMethod.automated document.id)
          verbatim)
        last

  -- If the source is not among the documents and its ingestion does not raise, each of its requirements is
  -- in the tables in a current first version, with the key, the summary, the condition and the exceptions
  -- of its seed, and grounded in a provision whose text is that of the seed's file, word for word.
  pub ingest_source-AllIngested :
      (metadata : Metadata)
      → files.metadata dir ≡ ok metadata
      → source_present engine files uuid now metadata.source_document_key draft.store ≡ false
      → (ingest_source engine files uuid now dir provision_seeds requirement_seeds draft).0 ≡ ok tt
      → All
          (λ seed.
            IsIngested files dir provision_seeds seed
              (ingest_source engine files uuid now dir provision_seeds requirement_seeds
                draft).1.store)
          requirement_seeds
  unfolding ingest_source with_metadata
  ingest_source-AllIngested metadata read absent h =
      let load = load_source engine files uuid now dir metadata provision_seeds requirement_seeds in
      let (after, r, e) = committed-eq-ok load draft (rw (read, absent) at h) in
      rw (read, absent, e) (load_source-AllIngested metadata r)
