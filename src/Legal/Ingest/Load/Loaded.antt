-- ===== src/Legal/Ingest/Load/Loaded.antt =====
-- src/legal/ingest.py: every requirement of the corpus is loaded as its seed says.
use mathlib.Core.List.{mem-append_right, mem-cons_self}
use eu_ai_act_compliance.Prelude.{ℕ, String, List, [], ◌∷◌, none, ◌≡◌, refl, Mem, All}
use eu_ai_act_compliance.Result.{ok, >>=-eq-ok}
use eu_ai_act_compliance.Calendar.{DateTime}
use eu_ai_act_compliance.Persistence.Engine.{Engine}
use eu_ai_act_compliance.Persistence.Models.{
  SourceDocument, Requirement, ApplicabilityCondition, LegalException, RetrievalMethod, EntityType,
}
use eu_ai_act_compliance.Legal.Store.{LegalStore}
use eu_ai_act_compliance.Legal.Ingest.Seed.{ProvisionSeed, ExceptionSeed, RequirementSeed}
use eu_ai_act_compliance.Legal.Ingest.Rows.{
  Files, Draft, add_provenance, add_requirement, add_condition, add_exception,
}
use eu_ai_act_compliance.Legal.Ingest.Rows.Extends.{
  Extends, Extends-trans, Mem-Added, add_provenance-Extends, add_requirement-Extends,
  add_condition-Extends, add_exception-Extends,
}
use eu_ai_act_compliance.Legal.Ingest.Load.{
  by_citation, load_exceptions, load_requirement, load_requirements,
}
use eu_ai_act_compliance.Legal.Ingest.Load.Growth.{
  load_exceptions-Extends, load_requirement-Extends, load_requirements-Extends,
}
use eu_ai_act_compliance.Legal.Ingest.Load.Corpus.{
  IsVerbatim, IsVerbatim-Extends, AllVerbatim, AllVerbatim-Extends, by_citation-IsVerbatim,
}

module _ (files : Files) (dir : String) (provision_seeds : List ProvisionSeed) where
  -- An exception of a requirement, with the provision that it is quoted from.
  pub record IsExcepted (requirement_id : String) (seed : ExceptionSeed) (store : LegalStore)
      : Type 0 where
    pub row : LegalException
    pub stored : Mem row store.exceptions
    pub of_requirement : row.requirement_id ≡ requirement_id
    pub described : row.description ≡ seed.description
    pub quoted :
        IsVerbatim files dir provision_seeds seed.provision_citation row.source_provision_id store

  -- A requirement in its first version, as the seed says, with its provision, the condition under which it
  -- applies and its exceptions.
  pub record IsIngested (seed : RequirementSeed) (store : LegalStore) : Type 0 where
    pub requirement : Requirement
    pub condition : ApplicabilityCondition
    pub stored : Mem requirement store.requirements
    pub keyed : requirement.requirement_key ≡ seed.requirement_key
    pub summarised : requirement.summary ≡ seed.summary
    pub first_version : requirement.version ≡ 1
    pub current : requirement.superseded_by_id ≡ none
    pub grounded :
        IsVerbatim files dir provision_seeds seed.provision_citation
          requirement.primary_provision_id store
    pub conditioned : Mem condition store.applicability_conditions
    pub of_requirement : condition.requirement_id ≡ requirement.id
    pub for_role : condition.actor_role ≡ seed.actor_role
    pub for_any_sector : condition.sector ≡ none
    pub for_category : condition.annex_iii_category ≡ seed.annex_iii_category
    pub starts : condition.temporal_start ≡ seed.temporal_start
    pub open_ended : condition.temporal_end ≡ none
    pub excepted : All (λ exc. IsExcepted requirement.id exc store) seed.exceptions

  AllExcepted-Extends :
      (id : String) (excs : List ExceptionSeed) {store after : LegalStore}
      → Extends store after
      → All (λ exc. IsExcepted id exc store) excs
      → All (λ exc. IsExcepted id exc after) excs
  AllExcepted-Extends id [] grown h = tt
  AllExcepted-Extends id (exc ∷ excs) grown (p, h) = (
    record {
      row = p.row;
      stored = Mem-Added grown.exceptions p.stored;
      of_requirement = p.of_requirement;
      described = p.described;
      quoted = IsVerbatim-Extends files dir provision_seeds grown p.quoted;
    },
    AllExcepted-Extends id excs grown h,
  )

  IsIngested-Extends :
      (seed : RequirementSeed) {store after : LegalStore}
      → Extends store after
      → IsIngested seed store
      → IsIngested seed after
  IsIngested-Extends seed grown p = record {
    requirement = p.requirement;
    condition = p.condition;
    stored = Mem-Added grown.requirements p.stored;
    keyed = p.keyed;
    summarised = p.summarised;
    first_version = p.first_version;
    current = p.current;
    grounded = IsVerbatim-Extends files dir provision_seeds grown p.grounded;
    conditioned = Mem-Added grown.applicability_conditions p.conditioned;
    of_requirement = p.of_requirement;
    for_role = p.for_role;
    for_any_sector = p.for_any_sector;
    for_category = p.for_category;
    starts = p.starts;
    open_ended = p.open_ended;
    excepted = AllExcepted-Extends p.requirement.id seed.exceptions grown p.excepted;
  }

  pub AllIngested-Extends :
      (seeds : List RequirementSeed) {store after : LegalStore}
      → Extends store after
      → All (λ seed. IsIngested seed store) seeds
      → All (λ seed. IsIngested seed after) seeds
  AllIngested-Extends [] grown h = tt
  AllIngested-Extends (seed ∷ seeds) grown (p, h) =
      (IsIngested-Extends seed grown p, AllIngested-Extends seeds grown h)

  module _ (engine : Engine) (uuid : ℕ → String) (now : DateTime) where
    load_exceptions-AllExcepted :
        (provisions : List (String × String)) (id : String) (excs : List ExceptionSeed)
        (draft : Draft) {after : Draft}
        → AllVerbatim files dir provision_seeds provisions draft.store
        → load_exceptions engine files uuid now provisions id excs draft ≡ ok after
        → All (λ exc. IsExcepted id exc after.store) excs
    unfolding load_exceptions
    load_exceptions-AllExcepted provisions id [] draft h k = tt
    load_exceptions-AllExcepted provisions id (exc ∷ excs) draft h k =
        let (provision_id, found, last) =
          >>=-eq-ok (by_citation exc.provision_citation provisions) _ k in
        let draft' = add_exception uuid now id provision_id exc.description draft in
        let one = add_exception-Extends uuid now draft id provision_id exc.description in
        let grown = load_exceptions-Extends engine files uuid now provisions id excs draft' last in
        let quoted =
          by_citation-IsVerbatim files dir provision_seeds exc.provision_citation provisions h
            found in
        (
          (unfold add_exception in
              record {
                row = _;
                stored =
                    Mem-Added grown.exceptions
                      (mem-append_right draft.store.exceptions mem-cons_self);
                of_requirement = refl;
                described = refl;
                quoted =
                    IsVerbatim-Extends files dir provision_seeds (Extends-trans one grown) quoted;
              }),
          load_exceptions-AllExcepted provisions id excs draft'
              (AllVerbatim-Extends files dir provision_seeds provisions one h) last,
        )

    load_requirement-IsIngested :
        (provisions : List (String × String)) (document : SourceDocument) (seed : RequirementSeed)
        (draft : Draft) {after : Draft}
        → AllVerbatim files dir provision_seeds provisions draft.store
        → load_requirement engine files uuid now provisions document seed draft ≡ ok after
        → IsIngested seed after.store
    unfolding load_requirement add_requirement add_condition
    load_requirement-IsIngested provisions document seed draft {after} h k =
        let id = uuid draft.drawn in
        let (provision_id, found, k') =
          >>=-eq-ok (by_citation seed.provision_citation provisions) _ k in
        let required = add_requirement uuid now seed provision_id draft in
        let conditioned = add_condition uuid now seed id required in
        let (described, excepted, last) =
          >>=-eq-ok
            (load_exceptions engine files uuid now provisions id seed.exceptions conditioned) _
            k' in
        let before =
          Extends-trans (add_requirement-Extends uuid now draft seed provision_id)
            (add_condition-Extends uuid now required seed id) in
        let behind =
          load_exceptions-Extends engine files uuid now provisions id seed.exceptions conditioned
            excepted in
        let e : add_provenance uuid now document EntityType.requirement RetrievalMethod.manual id
              described
            ≡ after =
          cc in
        rw (← e) (
          IsIngested-Extends seed
            (add_provenance-Extends uuid now described document EntityType.requirement
              RetrievalMethod.manual id)
            (record {
              requirement = _;
              condition = _;
              stored =
                  Mem-Added behind.requirements
                    (mem-append_right draft.store.requirements mem-cons_self);
              keyed = refl;
              summarised = refl;
              first_version = refl;
              current = refl;
              grounded =
                  IsVerbatim-Extends files dir provision_seeds (Extends-trans before behind) (
                    by_citation-IsVerbatim files dir provision_seeds seed.provision_citation
                      provisions h found);
              conditioned =
                  Mem-Added behind.applicability_conditions
                    (mem-append_right draft.store.applicability_conditions mem-cons_self);
              of_requirement = refl;
              for_role = refl;
              for_any_sector = refl;
              for_category = refl;
              starts = refl;
              open_ended = refl;
              excepted =
                  load_exceptions-AllExcepted provisions id seed.exceptions conditioned
                    (AllVerbatim-Extends files dir provision_seeds provisions before h) excepted;
            }))

    pub load_requirements-AllIngested :
        (provisions : List (String × String)) (document : SourceDocument)
        (seeds : List RequirementSeed) (draft : Draft) {after : Draft}
        → AllVerbatim files dir provision_seeds provisions draft.store
        → load_requirements engine files uuid now provisions document seeds draft ≡ ok after
        → All (λ seed. IsIngested seed after.store) seeds
    unfolding load_requirements
    load_requirements-AllIngested provisions document [] draft h k = tt
    load_requirements-AllIngested provisions document (seed ∷ seeds) draft h k =
        let (loaded, one, last) =
          >>=-eq-ok (load_requirement engine files uuid now provisions document seed draft) _ k in
        let grown =
          load_requirements-Extends engine files uuid now provisions document seeds loaded last in
        (
          IsIngested-Extends seed grown
              (load_requirement-IsIngested provisions document seed draft h one),
          load_requirements-AllIngested provisions document seeds loaded
              (AllVerbatim-Extends files dir provision_seeds provisions
                (load_requirement-Extends engine files uuid now provisions document seed draft one)
                h)
              last,
        )
