-- ===== src/Legal/Ingest/Run/Idempotent.antt =====
-- src/legal/ingest.py: running the ingestion again changes nothing.
use eu_ai_act_compliance.Prelude.{ℕ, String, ◌≡◌, refl, true}
use eu_ai_act_compliance.Result.{ok}
use eu_ai_act_compliance.Exec.{Exec, ◌>>◌, bind-eq-ok, bind-ok}
use eu_ai_act_compliance.Calendar.{DateTime}
use eu_ai_act_compliance.Persistence.Engine.{Engine}
use eu_ai_act_compliance.Legal.Store.{LegalStore}
use eu_ai_act_compliance.Legal.Ingest.Rows.{Files, Draft}
use eu_ai_act_compliance.Legal.Ingest.Rows.Extends.{Extends, Extends-trans}
use eu_ai_act_compliance.Legal.Ingest.Load.{crosswalks_seeded, ingest_framework, ingest_source}
use eu_ai_act_compliance.Legal.Ingest.Load.Once.{
  HasSource, HasSource-Extends, crosswalks_seeded-Extends, ingest_framework-seeded,
  ingest_framework-again, ingest_source-HasSource, ingest_source-again,
}
use eu_ai_act_compliance.Legal.Ingest.Run.{
  sources_dir, gdpr_sources_dir, nist_ai_rmf_name, nist_csf_name, nist_ai_rmf_url, nist_csf_url,
  nist_ai_rmf_sources_dir, nist_csf_sources_dir, ingest_crosswalks, ingest_seed,
}
use eu_ai_act_compliance.Legal.Ingest.Seeds.Provisions.{provision_seeds, gdpr_provision_seeds}
use eu_ai_act_compliance.Legal.Ingest.Seeds.Duties.{
  all_requirement_seeds, gdpr_obligation_requirements,
}
use eu_ai_act_compliance.Legal.Ingest.Seeds.Crosswalks.{
  nist_crosswalk_seeds, nist_csf_crosswalk_seeds,
}

module _ (engine : Engine) (files : Files) (uuid : ℕ → String) (now : DateTime) where
  abbrev eu_ai_act : Exec Draft (Unit {0})
  eu_ai_act = ingest_source engine files uuid now sources_dir provision_seeds all_requirement_seeds

  abbrev gdpr : Exec Draft (Unit {0})
  gdpr =
      ingest_source engine files uuid now gdpr_sources_dir gdpr_provision_seeds
        gdpr_obligation_requirements

  abbrev nist_ai_rmf : Exec Draft (Unit {0})
  nist_ai_rmf =
      ingest_framework engine files uuid now nist_ai_rmf_name nist_ai_rmf_url
        nist_ai_rmf_sources_dir nist_crosswalk_seeds

  abbrev nist_csf : Exec Draft (Unit {0})
  nist_csf =
      ingest_framework engine files uuid now nist_csf_name nist_csf_url nist_csf_sources_dir
        nist_csf_crosswalk_seeds

  -- Everything that a whole ingestion leaves in the tables, as far as its guards look.
  record IsSeeded (store : LegalStore) : Type 0 where
    act : HasSource engine files uuid now sources_dir store
    regulation : HasSource engine files uuid now gdpr_sources_dir store
    rmf : crosswalks_seeded engine files uuid now nist_ai_rmf_name store ≡ true
    csf : crosswalks_seeded engine files uuid now nist_csf_name store ≡ true

  ingest_crosswalks-seeded :
      (draft : Draft)
      → (ingest_crosswalks engine files uuid now draft).0 ≡ ok tt
      → Extends draft.store (ingest_crosswalks engine files uuid now draft).1.store
        × (crosswalks_seeded engine files uuid now nist_ai_rmf_name
              (ingest_crosswalks engine files uuid now draft).1.store
            ≡ true)
        × (crosswalks_seeded engine files uuid now nist_csf_name
              (ingest_crosswalks engine files uuid now draft).1.store
            ≡ true)
  unfolding ingest_crosswalks nist_crosswalk_seeds nist_csf_crosswalk_seeds
  ingest_crosswalks-seeded draft h =
      let (done, one, two) = bind-eq-ok nist_ai_rmf (λ done. nist_csf) draft h in
      let (grown, rmf) =
        ingest_framework-seeded engine files uuid now nist_ai_rmf_name nist_ai_rmf_url
          nist_ai_rmf_sources_dir _ _ draft one in
      let (grown', csf) =
        ingest_framework-seeded engine files uuid now nist_csf_name nist_csf_url
          nist_csf_sources_dir _ _ (nist_ai_rmf draft).1 two in
      rw (bind-ok nist_ai_rmf (λ done. nist_csf) draft one) (
        Extends-trans grown grown',
        crosswalks_seeded-Extends engine files uuid now nist_ai_rmf_name grown' rmf,
        csf,
      )

  ingest_seed-IsSeeded :
      (draft : Draft)
      → (ingest_seed engine files uuid now draft).0 ≡ ok tt
      → Extends draft.store (ingest_seed engine files uuid now draft).1.store
        × IsSeeded (ingest_seed engine files uuid now draft).1.store
  unfolding ingest_seed
  ingest_seed-IsSeeded draft h =
      let crosswalks = ingest_crosswalks engine files uuid now in
      let (done, one, rest) = bind-eq-ok eu_ai_act (λ done. gdpr >> crosswalks) draft h in
      let first = (eu_ai_act draft).1 in
      let (done', two, three) = bind-eq-ok gdpr (λ done. crosswalks) first rest in
      let second = (gdpr first).1 in
      let (a, act) =
        ingest_source-HasSource engine files uuid now sources_dir provision_seeds
          all_requirement_seeds draft one in
      let (b, regulation) =
        ingest_source-HasSource engine files uuid now gdpr_sources_dir gdpr_provision_seeds
          gdpr_obligation_requirements first two in
      let (c, rmf, csf) = ingest_crosswalks-seeded second three in
      rw
        (
          bind-ok eu_ai_act (λ done. gdpr >> crosswalks) draft one,
          bind-ok gdpr (λ done. crosswalks) first two,
        )
        (
          Extends-trans a (Extends-trans b c),
          record {
            act = HasSource-Extends engine files uuid now sources_dir (Extends-trans b c) act;
            regulation = HasSource-Extends engine files uuid now gdpr_sources_dir c regulation;
            rmf = rmf;
            csf = csf;
          },
        )

  ingest_seed-again :
      (s : Draft)
      → eu_ai_act s ≡ (ok tt, s)
      → gdpr s ≡ (ok tt, s)
      → nist_ai_rmf s ≡ (ok tt, s)
      → nist_csf s ≡ (ok tt, s)
      → ingest_seed engine files uuid now s ≡ (ok tt, s)
  unfolding ingest_seed ingest_crosswalks
  ingest_seed-again s a b c d = rw (a, b, c, d) refl

  -- An ingestion that did not raise has only added rows behind those of the tables, and running it again
  -- succeeds and changes nothing: no table, and not even the ids that are drawn.
  pub ingest_seed-idempotent :
      (draft : Draft)
      → (ingest_seed engine files uuid now draft).0 ≡ ok tt
      → Extends draft.store (ingest_seed engine files uuid now draft).1.store
        × (ingest_seed engine files uuid now (ingest_seed engine files uuid now draft).1
            ≡ (ok tt, (ingest_seed engine files uuid now draft).1))
  ingest_seed-idempotent draft h =
      let after = (ingest_seed engine files uuid now draft).1 in
      let (grown, seeded) = ingest_seed-IsSeeded draft h in
      let a =
        ingest_source-again engine files uuid now sources_dir provision_seeds all_requirement_seeds
          after seeded.act in
      let b =
        ingest_source-again engine files uuid now gdpr_sources_dir gdpr_provision_seeds
          gdpr_obligation_requirements after seeded.regulation in
      let c =
        ingest_framework-again engine files uuid now nist_ai_rmf_name nist_ai_rmf_url
          nist_ai_rmf_sources_dir nist_crosswalk_seeds after seeded.rmf in
      let d =
        ingest_framework-again engine files uuid now nist_csf_name nist_csf_url nist_csf_sources_dir
          nist_csf_crosswalk_seeds after seeded.csf in
      (grown, ingest_seed-again after a b c d)
