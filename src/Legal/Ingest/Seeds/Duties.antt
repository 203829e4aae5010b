-- ===== src/Legal/Ingest/Seeds/Duties.antt =====
-- src/legal/ingest.py: the duties that attach to a high-risk system, and all requirements together.
use eu_ai_act_compliance.Prelude.{List, [], ◌∷◌, ◌++◌, none, some}
use eu_ai_act_compliance.Schemas.Enums.ActorRole.{provider, any}
use eu_ai_act_compliance.Legal.Ingest.Seed.{
  RequirementSeed, requirement_seed, high_risk_general_start, gdpr_high_risk_start,
}
use eu_ai_act_compliance.Legal.Ingest.Seeds.Practices.{
  prohibited_practice_requirements, classification_pathway_requirements,
}
use eu_ai_act_compliance.Legal.Ingest.Seeds.Areas.{annex_iii_area_requirements}

unfoldable pub high_risk_obligation_requirements : List RequirementSeed
high_risk_obligation_requirements =
    (requirement_seed "EU-AI-ACT-ART9"
      "Providers must establish, implement, document, and maintain a risk management system for the high-risk AI system, run as a continuous iterative process throughout its lifecycle."
      "Article 9" (some provider) none high_risk_general_start [])
    ∷ (requirement_seed "EU-AI-ACT-ART10"
        "Training, validation, and testing data sets must be subject to data governance practices appropriate to the intended purpose, covering relevant design choices, data collection, bias examination, and gaps or shortcomings."
        "Article 10" (some provider) none high_risk_general_start [])
    ∷ (requirement_seed "EU-AI-ACT-ART11"
        "Providers must draw up technical documentation before the system is placed on the market or put into service, and keep it up to date, demonstrating compliance with this Section's requirements."
        "Article 11" (some provider) none high_risk_general_start [])
    ∷ (requirement_seed "EU-AI-ACT-ART12"
        "High-risk AI systems must technically allow automatic recording of events (logs) over the system's lifetime, sufficient to identify risk-relevant situations and support post-market monitoring."
        "Article 12" (some provider) none high_risk_general_start [])
    ∷ (requirement_seed "EU-AI-ACT-ART13"
        "High-risk AI systems must be designed to allow deployers to interpret and use their output appropriately, with instructions for use covering the information deployers need for compliant, informed use."
        "Article 13" (some provider) none high_risk_general_start [])
    ∷ (requirement_seed "EU-AI-ACT-ART14"
        "High-risk AI systems must be designed to allow effective human oversight during the period they are in use, including through built-in measures the provider identifies before market placement and measures deployers can implement."
        "Article 14" (some provider) none high_risk_general_start [])
    ∷ (requirement_seed "EU-AI-ACT-ART15"
        "High-risk AI systems must achieve an appropriate level of accuracy, robustness, and cybersecurity, and perform consistently across their lifecycle, with resilience against errors, faults, and attempts to exploit vulnerabilities."
        "Article 15" (some provider) none high_risk_general_start [])
    ∷ []

unfoldable pub gdpr_obligation_requirements : List RequirementSeed
gdpr_obligation_requirements =
    (requirement_seed "GDPR-ART22"
      "Data subjects have the right not to be subject to a decision based solely on automated processing (including profiling) that produces legal or similarly significant effects on them, unless a narrow exception applies -- and even then, the controller must provide safeguards including human intervention, the right to express a viewpoint, and the right to contest the decision."
      "Article 22" (some any) none gdpr_high_risk_start [])
    ∷ (requirement_seed "GDPR-ART35"
        "Where processing (in particular automated profiling that produces legal or similarly significant effects) is likely to result in a high risk to individuals' rights and freedoms, the controller must carry out a data protection impact assessment before the processing begins."
        "Article 35" (some any) none gdpr_high_risk_start [])
    ∷ []

unfoldable pub all_requirement_seeds : List RequirementSeed
unfolding prohibited_practice_requirements classification_pathway_requirements
    annex_iii_area_requirements high_risk_obligation_requirements
all_requirement_seeds =
    prohibited_practice_requirements ++ classification_pathway_requirements
    ++ annex_iii_area_requirements ++ high_risk_obligation_requirements
