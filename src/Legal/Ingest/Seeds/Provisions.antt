-- ===== src/Legal/Ingest/Seeds/Provisions.antt =====
-- src/legal/ingest.py: the provisions of both sources.
use eu_ai_act_compliance.Prelude.{List, [], ◌∷◌}
use eu_ai_act_compliance.Legal.Ingest.Seed.{
  ProvisionSeed, provision_seed, prohibited_practices_start, high_risk_general_start,
  article_6_1_start, gdpr_high_risk_start,
}

unfoldable pub provision_seeds : List ProvisionSeed
provision_seeds =
    (provision_seed "Article 5" "Prohibited AI practices" "article_5.txt"
      prohibited_practices_start)
    ∷ (provision_seed "Article 6" "Classification rules for high-risk AI systems" "article_6.txt"
        article_6_1_start)
    ∷ (provision_seed "Annex III" "High-risk AI systems referred to in Article 6(2)" "annex_iii.txt"
        high_risk_general_start)
    ∷ (provision_seed "Article 9" "Risk management system" "article_9.txt" high_risk_general_start)
    ∷ (provision_seed "Article 10" "Data and data governance" "article_10.txt"
        high_risk_general_start)
    ∷ (provision_seed "Article 11" "Technical documentation" "article_11.txt"
        high_risk_general_start)
    ∷ (provision_seed "Article 12" "Record-keeping" "article_12.txt" high_risk_general_start)
    ∷ (provision_seed "Article 13" "Transparency and provision of information to deployers"
        "article_13.txt" high_risk_general_start)
    ∷ (provision_seed "Article 14" "Human oversight" "article_14.txt" high_risk_general_start)
    ∷ (provision_seed "Article 15" "Accuracy, robustness and cybersecurity" "article_15.txt"
        high_risk_general_start)
    ∷ (provision_seed "Article 73" "Reporting of serious incidents" "article_73.txt"
        high_risk_general_start)
    ∷ (provision_seed "Article 3(49)" "Definition: 'serious incident'" "article_3_point_49.txt"
        prohibited_practices_start)
    ∷ (provision_seed "Article 3(61)" "Definition: 'widespread infringement'"
        "article_3_point_61.txt" prohibited_practices_start)
    ∷ []

unfoldable pub gdpr_provision_seeds : List ProvisionSeed
gdpr_provision_seeds =
    (provision_seed "Article 22" "Automated individual decision-making, including profiling"
      "article_22.txt" gdpr_high_risk_start)
    ∷ (provision_seed "Article 35" "Data protection impact assessment" "article_35.txt"
        gdpr_high_risk_start)
    ∷ []
