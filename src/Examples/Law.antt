-- ===== src/Examples/Law.antt =====
-- The legal tables of one requirement: queries, ranking, supersession and deadlines.
use eu_ai_act_compliance.Prelude.{
  ℕ, String, Bool, true, false, [], ◌∷◌, ◌++◌, none, some, ◌≡◌, ◌≢◌, ◌↔◌, refl, arith, Mem,
  starts_with,
}
use eu_ai_act_compliance.Prelude.Sort.{sort}
use eu_ai_act_compliance.Calendar.{Date, on, IsDate, days_in_month, lt}
use eu_ai_act_compliance.Persistence.Engine.{in_table_order}
use eu_ai_act_compliance.Persistence.Models.{Requirement, ApplicabilityCondition}
use eu_ai_act_compliance.Legal.Queries.{find_requirements, is_current}
use eu_ai_act_compliance.Legal.Queries.Answers.{Answers, find_requirements_iff}
use eu_ai_act_compliance.Legal.Versioning.{supersede_requirement, new_version}
use eu_ai_act_compliance.Legal.Versioning.Supersession.{supersede_requirement-current_iff}
use eu_ai_act_compliance.Legal.Deadlines.{next_applicable_date, not_yet_applicable}
use eu_ai_act_compliance.Legal.Deadlines.Earliest.{Qualifies, next_applicable_date-earliest}
use eu_ai_act_compliance.Legal.UpdateAlerts.{find_outdated_requirement_keys}
use eu_ai_act_compliance.Legal.UpdateAlerts.Amended.{
  LaterVersion, find_outdated_requirement_keys_iff,
}
use eu_ai_act_compliance.Examples.{law, prohibition, prohibition_result, in_2025}

find_requirements_iff_example :
    Mem prohibition_result (find_requirements in_table_order law none none (some in_2025))
    ↔ ∥ Answers in_table_order law none none (some in_2025) prohibition_result ∥₁
find_requirements_iff_example =
    find_requirements_iff in_table_order law none none (some in_2025) prohibition_result

abbrev uuid : ℕ → String
uuid n = "new"

abbrev second_version : Requirement
second_version = new_version in_table_order uuid 7 prohibition "Amended" "p1"

other_id : ◌≢◌ {A = String} "new" "r1"
other_id e = cc

supersede_requirement-current_iff_example :
    (Mem second_version
        (supersede_requirement in_table_order uuid 7 prohibition "Amended" "p1" law).1.requirements
      × (is_current second_version ≡ true))
    ↔ (Mem second_version (law.requirements ++ (second_version ∷ []))
        × (is_current second_version ≡ true)
        × (second_version.id ≢ "r1"))
supersede_requirement-current_iff_example =
    supersede_requirement-current_iff in_table_order uuid 7 law prohibition "Amended" "p1" refl
      other_id second_version

abbrev leap_day : Date
leap_day = on 2024 2 29

leap_day-IsDate : IsDate leap_day
unfolding days_in_month
leap_day-IsDate = record {
  year_low = omega arith;
  year_high = omega arith;
  month_low = omega arith;
  month_high = omega arith;
  day_low = omega arith;
  day_high = omega arith;
}

abbrev like_prefix : String → String → Bool
like_prefix prefix key = starts_with key prefix

next_applicable_date-earliest_example :
    ∥ (
      (c : ApplicabilityCondition) × Qualifies in_table_order like_prefix law
        ("EU-AI-ACT-ART5" ∷ [])
        leap_day
        c
      × (c.temporal_start ≡ in_2025)) ∥₁
    × ((c : ApplicabilityCondition)
        → Qualifies in_table_order like_prefix law ("EU-AI-ACT-ART5" ∷ []) leap_day c
        → lt c.temporal_start in_2025 ≡ false)
unfolding next_applicable_date not_yet_applicable lt sort
next_applicable_date-earliest_example =
    next_applicable_date-earliest in_table_order like_prefix law ("EU-AI-ACT-ART5" ∷ []) leap_day
      in_2025 refl

find_outdated_requirement_keys_iff_example :
    Mem "EU-AI-ACT-ART5"
      (find_outdated_requirement_keys in_table_order law ("EU-AI-ACT-ART5" ∷ []) 3)
    ↔ (Mem {A = String} "EU-AI-ACT-ART5" ("EU-AI-ACT-ART5" ∷ [])
        × ∥ LaterVersion in_table_order law 3 "EU-AI-ACT-ART5" ∥₁)
find_outdated_requirement_keys_iff_example =
    find_outdated_requirement_keys_iff in_table_order law ("EU-AI-ACT-ART5" ∷ []) 3 "EU-AI-ACT-ART5"
