-- ===== src/Legal/Ingest/Seeds/Areas.antt =====
-- src/legal/ingest.py: the areas of Annex III.
use eu_ai_act_compliance.Prelude.{List, [], ◌∷◌, some}
use eu_ai_act_compliance.Schemas.Enums.ActorRole.{any}
use eu_ai_act_compliance.Legal.Ingest.Seed.{
  RequirementSeed, requirement_seed, high_risk_general_start,
}

unfoldable pub annex_iii_area_requirements : List RequirementSeed
annex_iii_area_requirements =
    (requirement_seed "EU-AI-ACT-ANNEXIII-1"
      "Biometrics: remote biometric identification, biometric categorisation by sensitive/protected attributes, and emotion recognition (where permitted under Union/national law)."
      "Annex III" (some any) (some "1") high_risk_general_start [])
    ∷ (requirement_seed "EU-AI-ACT-ANNEXIII-2"
        "Critical infrastructure: safety components in critical digital infrastructure, road traffic, or water/gas/heating/electricity supply."
        "Annex III" (some any) (some "2") high_risk_general_start [])
    ∷ (requirement_seed "EU-AI-ACT-ANNEXIII-3"
        "Education and vocational training: access/admission decisions, evaluating learning outcomes, assessing appropriate education level, monitoring prohibited test behaviour."
        "Annex III" (some any) (some "3") high_risk_general_start [])
    ∷ (requirement_seed "EU-AI-ACT-ANNEXIII-4"
        "Employment and workers' management: recruitment/selection, and decisions on work-related relationships, task allocation, or performance monitoring."
        "Annex III" (some any) (some "4") high_risk_general_start [])
    ∷ (requirement_seed "EU-AI-ACT-ANNEXIII-5"
        "Access to essential private/public services: eligibility for public assistance benefits, creditworthiness/credit scoring, life/health insurance risk assessment and pricing, emergency call evaluation/dispatch."
        "Annex III" (some any) (some "5") high_risk_general_start [])
    ∷ (requirement_seed "EU-AI-ACT-ANNEXIII-6"
        "Law enforcement (where permitted under Union/national law): risk assessment of individuals, polygraphs, evidence reliability evaluation, offending/re-offending risk assessment, profiling in criminal investigations."
        "Annex III" (some any) (some "6") high_risk_general_start [])
    ∷ (requirement_seed "EU-AI-ACT-ANNEXIII-7"
        "Migration, asylum and border control management (where permitted under Union/national law): polygraphs, risk assessment of persons entering a Member State, examination of asylum/visa/residence applications, identification of natural persons."
        "Annex III" (some any) (some "7") high_risk_general_start [])
    ∷ (requirement_seed "EU-AI-ACT-ANNEXIII-8"
        "Administration of justice and democratic processes: assisting judicial authorities in researching/interpreting facts and law, or influencing election/referendum outcomes or voting behaviour."
        "Annex III" (some any) (some "8") high_risk_general_start [])
    ∷ []
