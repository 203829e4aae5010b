-- ===== src/Legal/Ingest/Load/Once.antt =====
-- src/legal/ingest.py: a source or a framework that was loaded is not loaded again.
use eu_ai_act_compliance.Prelude.{
  ℕ, String, Bool, true, List, ◌∷◌, is_some, first, ◌≡◌, refl, Mem, str_eq, str_eq_iff, Bool-cases,
  Option-cases, inl, inr,
}
use eu_ai_act_compliance.Result.{Result, ok, Result-cases}
use eu_ai_act_compliance.Calendar.{DateTime}
use eu_ai_act_compliance.Persistence.Engine.{
  Engine, mem-rows_of_mem, mem_of_mem-rows, test_of_mem-rows, mem_of_first, first_of_mem,
}
use eu_ai_act_compliance.Legal.Store.{LegalStore}
use eu_ai_act_compliance.Legal.Ingest.Seed.{ProvisionSeed, RequirementSeed, CrosswalkSeed}
use eu_ai_act_compliance.Legal.Ingest.Rows.{Metadata, Files, Draft}
use eu_ai_act_compliance.Legal.Ingest.Rows.Extends.{Extends, Extends-refl, Mem-Added}
use eu_ai_act_compliance.Legal.Ingest.Load.{
  committed, crosswalks_seeded, load_crosswalks, ingest_framework, source_present, load_source,
  with_metadata, ingest_source,
}
use eu_ai_act_compliance.Legal.Ingest.Load.Growth.{
  load_crosswalks-Extends, load_crosswalks-head, load_source-Extends,
}

module _ (engine : Engine) {A : Type 0} (test : A → Bool) where
  -- A table has a row that passes exactly when the select finds one.
  found-mem :
      (table : List A)
      → is_some (first (engine.rows A test table)) ≡ true
      → (row : A) × Mem row table × (test row ≡ true)
  found-mem table h = elim (Option-cases (first (engine.rows A test table))) [
    | inl e ↦ absurd (let z = rw e at h in cc)
    | inr (row, e) ↦
        let m = mem_of_first (engine.rows A test table) e in
        (row, mem_of_mem-rows engine test table m, test_of_mem-rows engine test table m)
  ]

  mem-found :
      (table : List A) (row : A)
      → Mem row table
      → test row ≡ true
      → is_some (first (engine.rows A test table)) ≡ true
  mem-found table row m h =
      let (other, e) =
        first_of_mem (engine.rows A test table) (mem-rows_of_mem engine test table m h) in
      rw e refl

-- A load that was committed did not raise.
pub committed-eq-ok :
    (load : Draft → Result Draft) (draft : Draft)
    → (committed load draft).0 ≡ ok tt
    → (after : Draft) × (load draft ≡ ok after) × (committed load draft ≡ (ok tt, after))
unfolding committed
committed-eq-ok load draft h = elim (Result-cases (load draft)) [
  | inl (after, e) ↦ (after, e, rw (e, committed) refl)
  | inr (raised, e) ↦ absurd (let z = rw (e, committed) at h in cc)
]

module _ (engine : Engine) (files : Files) (uuid : ℕ → String) (now : DateTime) where
  pub source_present-Extends :
      (key : String) {store after : LegalStore}
      → Extends store after
      → source_present engine files uuid now key store ≡ true
      → source_present engine files uuid now key after ≡ true
  unfolding source_present
  source_present-Extends key {store} {after} grown h =
      let (d, m, same) = found-mem engine (λ d. str_eq d.source_key key) store.source_documents h in
      mem-found engine (λ d. str_eq d.source_key key) after.source_documents d
        (Mem-Added grown.source_documents m) same

  pub crosswalks_seeded-Extends :
      (name : String) {store after : LegalStore}
      → Extends store after
      → crosswalks_seeded engine files uuid now name store ≡ true
      → crosswalks_seeded engine files uuid now name after ≡ true
  unfolding crosswalks_seeded
  crosswalks_seeded-Extends name {store} {after} grown h =
      let (c, m, same) =
        found-mem engine (λ c. str_eq c.framework_name name) store.framework_crosswalks h in
      mem-found engine (λ c. str_eq c.framework_name name) after.framework_crosswalks c
        (Mem-Added grown.framework_crosswalks m) same

  -- What is left by a load of a framework that did not raise.
  pub ingest_framework-seeded :
      (name url dir : String) (seed : CrosswalkSeed) (seeds : List CrosswalkSeed) (draft : Draft)
      → (ingest_framework engine files uuid now name url dir (seed ∷ seeds) draft).0 ≡ ok tt
      → Extends draft.store
          (ingest_framework engine files uuid now name url dir (seed ∷ seeds) draft).1.store
        × (crosswalks_seeded engine files uuid now name
              (ingest_framework engine files uuid now name url dir (seed ∷ seeds) draft).1.store
            ≡ true)
  unfolding ingest_framework
  ingest_framework-seeded name url dir seed seeds draft h =
      elim (Bool-cases (crosswalks_seeded engine files uuid now name draft.store)) [
        | inl q ↦ rw q (Extends-refl draft.store, q)
        | inr q ↦
            let load = load_crosswalks engine files uuid now name url dir (seed ∷ seeds) in
            let (after, k, e) = committed-eq-ok load draft (rw q at h) in
            let (row, m, named) =
              load_crosswalks-head engine files uuid now name url dir seed seeds draft k in
            rw (q, e)
              (
                load_crosswalks-Extends engine files uuid now name url dir (seed ∷ seeds) draft k,
                unfold crosswalks_seeded in
                    mem-found engine (λ c. str_eq c.framework_name name)
                      after.store.framework_crosswalks row m ((str_eq_iff _ _).1 named),
              )
      ]

  pub ingest_framework-again :
      (name url dir : String) (seeds : List CrosswalkSeed) (draft : Draft)
      → crosswalks_seeded engine files uuid now name draft.store ≡ true
      → ingest_framework engine files uuid now name url dir seeds draft ≡ (ok tt, draft)
  unfolding ingest_framework
  ingest_framework-again name url dir seeds draft h = rw h refl

  -- The source of a directory is among the documents.
  abbrev pub HasSource : (dir : String) → LegalStore → Type 0
  HasSource dir store =
      (metadata : Metadata) × (files.metadata dir ≡ ok metadata)
      × (source_present engine files uuid now metadata.source_document_key store ≡ true)

  pub HasSource-Extends :
      (dir : String) {store after : LegalStore}
      → Extends store after
      → HasSource dir store
      → HasSource dir after
  HasSource-Extends dir grown (metadata, read, present) =
      (metadata, read, source_present-Extends metadata.source_document_key grown present)

  module _ (dir : String) (provision_seeds : List ProvisionSeed)
      (requirement_seeds : List RequirementSeed) (draft : Draft) where
    pub ingest_source-HasSource :
        (ingest_source engine files uuid now dir provision_seeds requirement_seeds draft).0 ≡ ok tt
        → Extends draft.store
            (ingest_source engine files uuid now dir provision_seeds requirement_seeds
              draft).1.store
          × HasSource dir
              (ingest_source engine files uuid now dir provision_seeds requirement_seeds
                draft).1.store
    unfolding ingest_source with_metadata
    ingest_source-HasSource h = elim (Result-cases (files.metadata dir)) [
      | inr (e, k) ↦ absurd (let z = rw k at h in cc)
      | inl (metadata, k) ↦
          let key = metadata.source_document_key in
          let h' = rw k at h in
          elim (Bool-cases (source_present engine files uuid now key draft.store)) [
            | inl q ↦ rw (k, q) (Extends-refl draft.store, (metadata, refl, q))
            | inr q ↦
                let load =
                  load_source engine files uuid now dir metadata provision_seeds
                    requirement_seeds in
                let (after, r, e) = committed-eq-ok load draft (rw q at h') in
                let (grown, (document, m, keyed)) =
                  load_source-Extends engine files uuid now dir metadata provision_seeds
                    requirement_seeds draft r in
                rw (k, q, e)
                  (
                    grown,
                    (
                      metadata,
                      refl,
                      unfold source_present in
                          mem-found engine (λ d. str_eq d.source_key key)
                            after.store.source_documents document m ((str_eq_iff _ _).1 keyed),
                    ),
                  )
          ]
    ]

    pub ingest_source-again :
        HasSource dir draft.store
        → ingest_source engine files uuid now dir provision_seeds requirement_seeds draft
          ≡ (ok tt, draft)
    unfolding ingest_source with_metadata
    ingest_source-again (metadata, read, present) = rw (read, present) refl
