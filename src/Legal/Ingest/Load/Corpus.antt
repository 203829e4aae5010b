-- ===== src/Legal/Ingest/Load/Corpus.antt =====
-- src/legal/ingest.py: what a loaded source holds of each requirement of the corpus.
use mathlib.Core.List.{mem-append_right, mem-cons_self, mem-cons_of_mem}
use eu_ai_act_compliance.Prelude.{
  ℕ, String, List, [], ◌∷◌, ◌≡◌, refl, Mem, All, str_eq, str_eq_iff, Bool-cases, inl, inr,
}
use eu_ai_act_compliance.Result.{ok, >>=-eq-ok}
use eu_ai_act_compliance.Calendar.{DateTime}
use eu_ai_act_compliance.Persistence.Engine.{Engine}
use eu_ai_act_compliance.Persistence.Models.{SourceDocument, LegalProvision}
use eu_ai_act_compliance.Legal.Store.{LegalStore}
use eu_ai_act_compliance.Legal.Ingest.Seed.{ProvisionSeed}
use eu_ai_act_compliance.Legal.Ingest.Rows.{Files, Draft, add_provenance, add_provision}
use eu_ai_act_compliance.Legal.Ingest.Rows.Extends.{Extends, Mem-Added, add_provision-Extends}
use eu_ai_act_compliance.Legal.Ingest.Load.{by_citation, load_provisions}

module _ (files : Files) (dir : String) (provision_seeds : List ProvisionSeed) where
  -- A provision of the tables with the text of its file, word for word.
  pub record IsVerbatim (citation id : String) (store : LegalStore) : Type 0 where
    pub seed : ProvisionSeed
    pub provision : LegalProvision
    pub seeded : Mem seed provision_seeds
    pub stored : Mem provision store.legal_provisions
    pub has_id : provision.id ≡ id
    pub of_seed : seed.citation ≡ citation
    pub cites : provision.citation ≡ citation
    pub text : files.read_text dir seed.text_file ≡ ok provision.text
    pub applies_from : provision.effective_date ≡ seed.effective_date

  pub IsVerbatim-Extends :
      {citation id : String} {store after : LegalStore}
      → Extends store after
      → IsVerbatim citation id store
      → IsVerbatim citation id after
  IsVerbatim-Extends grown p = record {
    seed = p.seed;
    provision = p.provision;
    seeded = p.seeded;
    stored = Mem-Added grown.legal_provisions p.stored;
    has_id = p.has_id;
    of_seed = p.of_seed;
    cites = p.cites;
    text = p.text;
    applies_from = p.applies_from;
  }

  abbrev pub AllVerbatim : List (String × String) → LegalStore → Type 0
  AllVerbatim provisions store = All (λ (citation, id). IsVerbatim citation id store) provisions

  pub AllVerbatim-Extends :
      (provisions : List (String × String)) {store after : LegalStore}
      → Extends store after
      → AllVerbatim provisions store
      → AllVerbatim provisions after
  AllVerbatim-Extends [] grown h = tt
  AllVerbatim-Extends ((c, id) ∷ provisions) grown (p, h) =
      (IsVerbatim-Extends grown p, AllVerbatim-Extends provisions grown h)

  pub by_citation-IsVerbatim :
      (citation : String) (provisions : List (String × String)) {id : String} {store : LegalStore}
      → AllVerbatim provisions store
      → by_citation citation provisions ≡ ok id
      → IsVerbatim citation id store
  unfolding by_citation
  by_citation-IsVerbatim citation [] h k = cc
  by_citation-IsVerbatim citation ((c, i) ∷ provisions) {id} {store} (p, h) k =
      elim (Bool-cases (str_eq c citation)) [
        | inl q ↦
            let z = rw q at k in
            let same : i ≡ id = cc in rw (← same, ← (str_eq_iff c citation).0 q) p
        | inr q ↦ by_citation-IsVerbatim citation provisions h (rw q at k)
      ]

  module _ (engine : Engine) (uuid : ℕ → String) (now : DateTime) where
    pub load_provisions-AllVerbatim :
        (document : SourceDocument) (seeds : List ProvisionSeed)
        (provisions : List (String × String)) (draft : Draft) {found : List (String × String)}
        {after : Draft}
        → ((seed : ProvisionSeed) → Mem seed seeds → Mem seed provision_seeds)
        → AllVerbatim provisions draft.store
        → load_provisions engine files uuid now dir document seeds (provisions, draft)
          ≡ ok (found, after)
        → AllVerbatim found after.store
    unfolding load_provisions
    load_provisions-AllVerbatim document [] provisions draft {found} {after} among h k =
        let same : provisions ≡ found = cc in
        let same' : draft ≡ after = cc in rw (← same, ← same') h
    load_provisions-AllVerbatim document (seed ∷ seeds) provisions draft among h k =
        let (text, read, last) = >>=-eq-ok (files.read_text dir seed.text_file) _ k in
        let draft' = add_provision uuid now document seed text draft in
        load_provisions-AllVerbatim document seeds ((seed.citation, uuid draft.drawn) ∷ provisions)
          draft' (λ s m. among s (mem-cons_of_mem seed m))
          (
            (unfold add_provision add_provenance in
                record {
                  seed = seed;
                  provision = _;
                  seeded = among seed mem-cons_self;
                  stored = mem-append_right draft.store.legal_provisions mem-cons_self;
                  has_id = refl;
                  of_seed = refl;
                  cites = refl;
                  text = read;
                  applies_from = refl;
                }),
            AllVerbatim-Extends provisions (add_provision-Extends uuid now draft document seed text)
                h,
          )
          last
