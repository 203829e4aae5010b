-- ===== src/Legal/Ingest/Seeds/Crosswalks.antt =====
-- src/legal/ingest.py: the subcategories of the voluntary frameworks.
use eu_ai_act_compliance.Prelude.{List, [], ◌∷◌}
use eu_ai_act_compliance.Legal.Ingest.Seed.{CrosswalkSeed, crosswalk_seed}

unfoldable pub nist_crosswalk_seeds : List CrosswalkSeed
nist_crosswalk_seeds =
    (crosswalk_seed "EU-AI-ACT-ART9" "GOVERN 1.4" "govern_1_4.txt")
    ∷ (crosswalk_seed "EU-AI-ACT-ART10" "MAP 2.3" "map_2_3.txt")
    ∷ (crosswalk_seed "EU-AI-ACT-ART11" "GOVERN 4.2" "govern_4_2.txt")
    ∷ (crosswalk_seed "EU-AI-ACT-ART12" "MEASURE 2.4" "measure_2_4.txt")
    ∷ (crosswalk_seed "EU-AI-ACT-ART13" "MEASURE 2.8" "measure_2_8.txt")
    ∷ (crosswalk_seed "EU-AI-ACT-ART14" "GOVERN 3.2" "govern_3_2.txt")
    ∷ (crosswalk_seed "EU-AI-ACT-ART15" "MEASURE 2.6" "measure_2_6.txt")
    ∷ (crosswalk_seed "EU-AI-ACT-ART15" "MEASURE 2.7" "measure_2_7.txt")
    ∷ (crosswalk_seed "GDPR-ART22" "GOVERN 3.2" "govern_3_2.txt")
    ∷ (crosswalk_seed "GDPR-ART35" "MAP 5.1" "map_5_1.txt")
    ∷ []

unfoldable pub nist_csf_crosswalk_seeds : List CrosswalkSeed
nist_csf_crosswalk_seeds =
    (crosswalk_seed "EU-AI-ACT-ART15" "ID.RA-01" "id_ra_01.txt")
    ∷ (crosswalk_seed "EU-AI-ACT-ART15" "PR.IR-03" "pr_ir_03.txt")
    ∷ []
