-- ===== src/Legal/Ingest/Load/Growth.antt =====
-- src/legal/ingest.py: each load only adds rows, and what a load that did not raise added.
use mathlib.Core.List.{mem-append_right, mem-cons_self}
use eu_ai_act_compliance.Prelude.{ℕ, String, List, [], ◌∷◌, ◌≡◌, refl, Mem, str_eq, ◌&&◌}
use eu_ai_act_compliance.Result.{ok, >>=-eq-ok}
use eu_ai_act_compliance.Calendar.{DateTime}
use eu_ai_act_compliance.Persistence.Engine.{Engine}
use eu_ai_act_compliance.Persistence.Models.{
  SourceDocument, Requirement, FrameworkCrosswalk, RetrievalMethod, EntityType,
}
use eu_ai_act_compliance.Legal.Queries.{is_current}
use eu_ai_act_compliance.Legal.Ingest.Seed.{
  ProvisionSeed, ExceptionSeed, RequirementSeed, CrosswalkSeed,
}
use eu_ai_act_compliance.Legal.Ingest.Rows.{
  Metadata, Files, Draft, add_document, add_provenance, add_provision, add_requirement,
  add_condition, add_exception, add_crosswalk,
}
use eu_ai_act_compliance.Legal.Ingest.Rows.Extends.{
  Extends, Extends-refl, Extends-trans, Mem-Added, add_document-Extends, add_provenance-Extends,
  add_provision-Extends, add_requirement-Extends, add_condition-Extends, add_exception-Extends,
  add_crosswalk-Extends,
}
use eu_ai_act_compliance.Legal.Ingest.Load.{
  by_citation, the_one, load_crosswalks, load_provisions, load_exceptions, load_requirement,
  load_requirements, load_source, document_of,
}

module _ (engine : Engine) (files : Files) (uuid : ℕ → String) (now : DateTime) where
  pub load_crosswalks-Extends :
      (name url dir : String) (seeds : List CrosswalkSeed) (draft : Draft) {after : Draft}
      → load_crosswalks engine files uuid now name url dir seeds draft ≡ ok after
      → Extends draft.store after.store
  unfolding load_crosswalks
  load_crosswalks-Extends name url dir [] draft {after} h =
      let e : draft ≡ after = cc in rw (← e) (Extends-refl draft.store)
  load_crosswalks-Extends name url dir (seed ∷ seeds) draft h =
      let (requirement, one, h') =
        >>=-eq-ok
          (the_one engine files uuid now (
            engine.rows Requirement
              (λ r. str_eq r.requirement_key seed.requirement_key && is_current r)
              draft.store.requirements))
          _ h in
      let (text, read, last) = >>=-eq-ok (files.read_text dir seed.text_file) _ h' in
      Extends-trans (add_crosswalk-Extends uuid now draft name url seed text requirement) (
        load_crosswalks-Extends name url dir seeds
          (add_crosswalk uuid now name url seed text requirement draft) last)

  -- The first seed gives a row of the framework.
  pub load_crosswalks-head :
      (name url dir : String) (seed : CrosswalkSeed) (seeds : List CrosswalkSeed) (draft : Draft)
      {after : Draft}
      → load_crosswalks engine files uuid now name url dir (seed ∷ seeds) draft ≡ ok after
      → (row : FrameworkCrosswalk) × Mem row after.store.framework_crosswalks
        × (row.framework_name ≡ name)
  unfolding load_crosswalks add_crosswalk
  load_crosswalks-head name url dir seed seeds draft h =
      let (requirement, one, h') =
        >>=-eq-ok
          (the_one engine files uuid now (
            engine.rows Requirement
              (λ r. str_eq r.requirement_key seed.requirement_key && is_current r)
              draft.store.requirements))
          _ h in
      let (text, read, last) = >>=-eq-ok (files.read_text dir seed.text_file) _ h' in
      let grown =
        load_crosswalks-Extends name url dir seeds
          (add_crosswalk uuid now name url seed text requirement draft) last in
      (
        _,
        Mem-Added grown.framework_crosswalks
            (mem-append_right draft.store.framework_crosswalks mem-cons_self),
        refl,
      )

  pub load_provisions-Extends :
      (dir : String) (document : SourceDocument) (seeds : List ProvisionSeed)
      (provisions : List (String × String)) (draft : Draft) {found : List (String × String)}
      {after : Draft}
      → load_provisions engine files uuid now dir document seeds (provisions, draft)
        ≡ ok (found, after)
      → Extends draft.store after.store
  unfolding load_provisions
  load_provisions-Extends dir document [] provisions draft {found} {after} h =
      let e : draft ≡ after = cc in rw (← e) (Extends-refl draft.store)
  load_provisions-Extends dir document (seed ∷ seeds) provisions draft h =
      let (text, read, last) = >>=-eq-ok (files.read_text dir seed.text_file) _ h in
      Extends-trans (add_provision-Extends uuid now draft document seed text) (
        load_provisions-Extends dir document seeds _
          (add_provision uuid now document seed text draft) last)

  pub load_exceptions-Extends :
      (provisions : List (String × String)) (requirement_id : String) (excs : List ExceptionSeed)
      (draft : Draft) {after : Draft}
      → load_exceptions engine files uuid now provisions requirement_id excs draft ≡ ok after
      → Extends draft.store after.store
  unfolding load_exceptions
  load_exceptions-Extends provisions requirement_id [] draft {after} h =
      let e : draft ≡ after = cc in rw (← e) (Extends-refl draft.store)
  load_exceptions-Extends provisions requirement_id (exc ∷ excs) draft h =
      let (provision_id, found, last) =
        >>=-eq-ok (by_citation exc.provision_citation provisions) _ h in
      Extends-trans
        (add_exception-Extends uuid now draft requirement_id provision_id exc.description)
        (load_exceptions-Extends provisions requirement_id excs
          (add_exception uuid now requirement_id provision_id exc.description draft) last)

  pub load_requirement-Extends :
      (provisions : List (String × String)) (document : SourceDocument) (seed : RequirementSeed)
      (draft : Draft) {after : Draft}
      → load_requirement engine files uuid now provisions document seed draft ≡ ok after
      → Extends draft.store after.store
  unfolding load_requirement
  load_requirement-Extends provisions document seed draft {after} h =
      let (provision_id, found, h') =
        >>=-eq-ok (by_citation seed.provision_citation provisions) _ h in
      let required = add_requirement uuid now seed provision_id draft in
      let conditioned = add_condition uuid now seed (uuid draft.drawn) required in
      let (described, excepted, last) =
        >>=-eq-ok
          (load_exceptions engine files uuid now provisions (uuid draft.drawn) seed.exceptions
            conditioned)
          _ h' in
      let e : add_provenance uuid now document EntityType.requirement RetrievalMethod.manual
            (uuid draft.drawn) described
          ≡ after =
        cc in
      rw (← e) (
        Extends-trans (add_requirement-Extends uuid now draft seed provision_id) (
          Extends-trans (add_condition-Extends uuid now required seed (uuid draft.drawn)) (
            Extends-trans
              (load_exceptions-Extends provisions (uuid draft.drawn) seed.exceptions conditioned
                excepted)
              (add_provenance-Extends uuid now described document EntityType.requirement
                RetrievalMethod.manual (uuid draft.drawn)))))

  pub load_requirements-Extends :
      (provisions : List (String × String)) (document : SourceDocument)
      (seeds : List RequirementSeed) (draft : Draft) {after : Draft}
      → load_requirements engine files uuid now provisions document seeds draft ≡ ok after
      → Extends draft.store after.store
  unfolding load_requirements
  load_requirements-Extends provisions document [] draft {after} h =
      let e : draft ≡ after = cc in rw (← e) (Extends-refl draft.store)
  load_requirements-Extends provisions document (seed ∷ seeds) draft h =
      let (loaded, one, last) =
        >>=-eq-ok (load_requirement engine files uuid now provisions document seed draft) _ h in
      Extends-trans (load_requirement-Extends provisions document seed draft one)
        (load_requirements-Extends provisions document seeds loaded last)

  document_of-key :
      (id : String) (metadata : Metadata) {document : SourceDocument}
      → document_of engine files uuid now id metadata ≡ ok document
      → document.source_key ≡ metadata.source_document_key
  unfolding document_of
  document_of-key id metadata h =
      let (date_of_act, a, h1) = >>=-eq-ok (files.date_fromisoformat metadata.date_of_act) _ h in
      let (date_published, b, h2) =
        >>=-eq-ok (files.date_fromisoformat metadata.date_published) _ h1 in
      let (date_entry_into_force, c, h3) =
        >>=-eq-ok (files.date_fromisoformat metadata.date_entry_into_force) _ h2 in
      let (retrieved_at, d, h4) =
        >>=-eq-ok (files.datetime_fromisoformat metadata.retrieved_at) _ h3 in
      cc

  -- A source that was loaded is among the documents.
  pub load_source-Extends :
      (dir : String) (metadata : Metadata) (provision_seeds : List ProvisionSeed)
      (requirement_seeds : List RequirementSeed) (draft : Draft) {after : Draft}
      → load_source engine files uuid now dir metadata provision_seeds requirement_seeds draft
        ≡ ok after
      → Extends draft.store after.store
        × ((document : SourceDocument) × Mem document after.store.source_documents
            × (document.source_key ≡ metadata.source_document_key))
  unfolding load_source add_document
  load_source-Extends dir metadata provision_seeds requirement_seeds draft h =
      let (document, made, h') =
        >>=-eq-ok (document_of engine files uuid now (uuid draft.drawn) metadata) _ h in
      let documented = add_document uuid now document draft in
      let ((provisions, provided), loaded, last) =
        >>=-eq-ok
          (load_provisions engine files uuid now dir document provision_seeds ([], documented)) _
          h' in
      let grown =
        Extends-trans (load_provisions-Extends dir document provision_seeds [] documented loaded) (
          Extends-trans
            (add_provenance-Extends uuid now provided document EntityType.source_document
              RetrievalMethod.automated document.id)
            (load_requirements-Extends provisions document requirement_seeds
              (add_provenance uuid now document EntityType.source_document RetrievalMethod.automated
                document.id provided)
              last)) in
      (
        Extends-trans (add_document-Extends uuid now draft document) grown,
        (
          document,
          Mem-Added grown.source_documents
              (mem-append_right draft.store.source_documents mem-cons_self),
          document_of-key (uuid draft.drawn) metadata made,
        ),
      )
