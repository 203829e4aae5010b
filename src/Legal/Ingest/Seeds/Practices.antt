-- ===== src/Legal/Ingest/Seeds/Practices.antt =====
-- src/legal/ingest.py: the prohibited practices and the pathways of Article 6.
use eu_ai_act_compliance.Prelude.{List, [], ◌∷◌, none, some}
use eu_ai_act_compliance.Schemas.Enums.ActorRole.{any}
use eu_ai_act_compliance.Legal.Ingest.Seed.{
  RequirementSeed, requirement_seed, exception_seed, prohibited_practices_start,
  high_risk_general_start, article_6_1_start,
}

unfoldable pub prohibited_practice_requirements : List RequirementSeed
prohibited_practice_requirements =
    (requirement_seed "EU-AI-ACT-ART5-1-A"
      "Prohibits placing on the market, putting into service, or using an AI system that deploys subliminal, manipulative, or deceptive techniques that materially distort a person's behaviour and cause or are reasonably likely to cause significant harm."
      "Article 5" (some any) none prohibited_practices_start [])
    ∷ (requirement_seed "EU-AI-ACT-ART5-1-B"
        "Prohibits AI systems that exploit vulnerabilities due to age, disability, or social/economic situation to materially distort behaviour causing significant harm."
        "Article 5" (some any) none prohibited_practices_start [])
    ∷ (requirement_seed "EU-AI-ACT-ART5-1-C"
        "Prohibits social scoring: evaluating or classifying natural persons over time based on social behaviour or inferred/predicted characteristics leading to unjustified or context-unrelated detrimental treatment."
        "Article 5" (some any) none prohibited_practices_start [])
    ∷ (requirement_seed "EU-AI-ACT-ART5-1-D"
        "Prohibits AI systems that assess or predict the risk of a natural person committing a criminal offence based solely on profiling or personality traits."
        "Article 5" (some any) none prohibited_practices_start
        ((exception_seed
            "this prohibition shall not apply to AI systems used to support the human assessment of the involvement of a person in a criminal activity, which is already based on objective and verifiable facts directly linked to a criminal activity"
            "Article 5")
          ∷ []))
    ∷ (requirement_seed "EU-AI-ACT-ART5-1-E"
        "Prohibits AI systems that create or expand facial recognition databases through untargeted scraping of facial images from the internet or CCTV footage."
        "Article 5" (some any) none prohibited_practices_start [])
    ∷ (requirement_seed "EU-AI-ACT-ART5-1-F"
        "Prohibits AI systems that infer emotions of a natural person in the workplace or education institutions."
        "Article 5" (some any) none prohibited_practices_start
        ((exception_seed
            "except where the use of the AI system is intended to be put in place or into the market for medical or safety reasons"
            "Article 5")
          ∷ []))
    ∷ (requirement_seed "EU-AI-ACT-ART5-1-G"
        "Prohibits biometric categorisation systems that categorise natural persons based on biometric data to infer or deduce race, political opinions, trade union membership, religious or philosophical beliefs, sex life, or sexual orientation."
        "Article 5" (some any) none prohibited_practices_start [])
    ∷ (requirement_seed "EU-AI-ACT-ART5-1-H"
        "Prohibits 'real-time' remote biometric identification in publicly accessible spaces for law enforcement purposes, subject to the narrowly-defined exceptions and judicial/administrative authorisation procedure set out in Article 5(2)-(7)."
        "Article 5" (some any) none prohibited_practices_start [])
    ∷ []

unfoldable pub classification_pathway_requirements : List RequirementSeed
classification_pathway_requirements =
    (requirement_seed "EU-AI-ACT-ART6-1"
      "An AI system is high-risk if it is a safety component (or is itself) a product covered by Union harmonisation legislation in Annex I AND that product requires third-party conformity assessment under that legislation."
      "Article 6" (some any) none article_6_1_start [])
    ∷ (requirement_seed "EU-AI-ACT-ART6-2"
        "An AI system referred to in Annex III is considered high-risk, subject to the Article 6(3) derogation."
        "Article 6" (some any) none high_risk_general_start
        ((exception_seed
            "an AI system referred to in Annex III shall not be considered to be high-risk where it does not pose a significant risk of harm to the health, safety or fundamental rights of natural persons, including by not materially influencing the outcome of decision making [applies where: narrow procedural task; improves result of a previously completed human activity; detects deviations from prior decision-making patterns without replacing/influencing human assessment; or performs a preparatory task] -- Notwithstanding the foregoing, an AI system referred to in Annex III shall always be considered high-risk where it performs profiling of natural persons."
            "Article 6")
          ∷ []))
    ∷ []
