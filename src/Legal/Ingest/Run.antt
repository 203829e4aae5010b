-- ===== src/Legal/Ingest/Run.antt =====
-- src/legal/ingest.py: the whole corpus, source by source and framework by framework.
pub mod Idempotent
use eu_ai_act_compliance.Prelude.{ℕ, String}
use eu_ai_act_compliance.Exec.{Exec, ◌>>=◌, ◌>>◌}
use eu_ai_act_compliance.Calendar.{DateTime}
use eu_ai_act_compliance.Persistence.Engine.{Engine}
use eu_ai_act_compliance.Legal.Ingest.Rows.{Files, Draft}
use eu_ai_act_compliance.Legal.Ingest.Load.{ingest_framework, ingest_source}
use eu_ai_act_compliance.Legal.Ingest.Seeds.Provisions.{provision_seeds, gdpr_provision_seeds}
use eu_ai_act_compliance.Legal.Ingest.Seeds.Duties.{
  all_requirement_seeds, gdpr_obligation_requirements,
}
use eu_ai_act_compliance.Legal.Ingest.Seeds.Crosswalks.{
  nist_crosswalk_seeds, nist_csf_crosswalk_seeds,
}

abbrev pub sources_dir : String
sources_dir = "legal/sources/eu_ai_act_2024_1689"

abbrev pub gdpr_sources_dir : String
gdpr_sources_dir = "legal/sources/gdpr_2016_679"

abbrev pub nist_ai_rmf_sources_dir : String
nist_ai_rmf_sources_dir = "legal/sources/nist_ai_rmf_1_0"

abbrev pub nist_csf_sources_dir : String
nist_csf_sources_dir = "legal/sources/nist_csf_2_0"

abbrev pub nist_ai_rmf_name : String
nist_ai_rmf_name = "NIST AI RMF 1.0"

abbrev pub nist_ai_rmf_url : String
nist_ai_rmf_url = "https://nvlpubs.nist.gov/nistpubs/ai/NIST.AI.100-1.pdf"

abbrev pub nist_csf_name : String
nist_csf_name = "NIST CSF 2.0"

abbrev pub nist_csf_url : String
nist_csf_url = "https://nvlpubs.nist.gov/nistpubs/CSWP/NIST.CSWP.29.pdf"

module _ (engine : Engine) (files : Files) (uuid : ℕ → String) (now : DateTime) where
  unfoldable pub ingest_crosswalks : Exec Draft (Unit {0})
  ingest_crosswalks = do
    ingest_framework engine files uuid now nist_ai_rmf_name nist_ai_rmf_url nist_ai_rmf_sources_dir
        nist_crosswalk_seeds
    ingest_framework engine files uuid now nist_csf_name nist_csf_url nist_csf_sources_dir
        nist_csf_crosswalk_seeds

  unfoldable pub ingest_seed : Exec Draft (Unit {0})
  unfolding ingest_crosswalks
  ingest_seed = do
    ingest_source engine files uuid now sources_dir provision_seeds all_requirement_seeds
    ingest_source engine files uuid now gdpr_sources_dir gdpr_provision_seeds
        gdpr_obligation_requirements
    ingest_crosswalks
