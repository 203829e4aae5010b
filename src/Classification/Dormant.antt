-- ===== src/Classification/Dormant.antt =====
-- src/classification/classify.py: the categories that are settled without a call of the model.
use mathlib.Core.Logic.{∥∥₁_elim, ∥∥₁_prop}
use text.Mathlib.TextBridge.{IsPrefix}
use text.Mathlib.TextEquality.{starts_with_iff}
use eu_ai_act_compliance.Prelude.{
  String, Bool, true, false, none, some, Option, [], first, is_empty, starts_with, ◌≡◌, ◌↔◌, ◌⊎◌,
  refl, ◌+s◌, inl, inr, Bool-cases, is_nonempty-append,
}
use eu_ai_act_compliance.Result.{Result, ok}
use eu_ai_act_compliance.Rendering.{Rendering}
use eu_ai_act_compliance.Calendar.{Date}
use eu_ai_act_compliance.Llm.{LlmClient}
use eu_ai_act_compliance.Persistence.Engine.{Engine}
use eu_ai_act_compliance.Legal.Store.{LegalStore}
use eu_ai_act_compliance.Legal.Queries.{RequirementResult}
use eu_ai_act_compliance.Legal.Queries.Answers.{Answers, find_requirements_iff}
use eu_ai_act_compliance.Retrieval.{starts_with_any}
use eu_ai_act_compliance.Retrieval.Ranking.{retrieve-cases}
use eu_ai_act_compliance.Schemas.Facts.{ExtractedFacts}
use eu_ai_act_compliance.Schemas.Floats.{one}
use eu_ai_act_compliance.Schemas.Enums.Category.{
  ClassificationCategory, scope, prohibited_practices, high_risk, gpai, transparency,
}
use eu_ai_act_compliance.Schemas.Enums.State.{insufficient_information, not_applicable}
use eu_ai_act_compliance.Schemas.Classification.{
  CategoryClassification, validate, classification_fields, require_citation_for_affirmative_states,
}
use eu_ai_act_compliance.Classification.{
  category_key_prefixes, not_ingested, none_in_force, insufficient, not_yet_in_force,
  candidates_for, assess_category,
}
use eu_ai_act_compliance.Classification.Total.{unsure, insufficient_lem}

-- The keys that concern a category: those of Article 5 the prohibited practices, those of Article 6 and
-- Annex III the high risk, and none the others.
abbrev pub Concerns : ClassificationCategory → String → Type 0
Concerns prohibited_practices key = IsPrefix "EU-AI-ACT-ART5" key
Concerns high_risk key = IsPrefix "EU-AI-ACT-ART6" key ⊎ IsPrefix "EU-AI-ACT-ANNEXIII" key
Concerns scope key = ⊥
Concerns gpai key = ⊥
Concerns transparency key = ⊥

Concerns-iff :
    (category : ClassificationCategory) (key : String)
    → (starts_with_any (category_key_prefixes category) key ≡ true) ↔ Concerns category key
unfolding starts_with_any category_key_prefixes
Concerns-iff scope key = (λ h. cc, λ h. absurd h)
Concerns-iff gpai key = (λ h. cc, λ h. absurd h)
Concerns-iff transparency key = (λ h. cc, λ h. absurd h)
Concerns-iff prohibited_practices key =
    let five = starts_with_iff key "EU-AI-ACT-ART5" in
    (
      λ h. elim (Bool-cases (starts_with key "EU-AI-ACT-ART5")) [
        | inl q ↦ five.0 q
        | inr q ↦ absurd (let z = rw q at h in cc)
      ],
      λ h. let q = five.1 h in rw q refl,
    )
Concerns-iff high_risk key =
    let six = starts_with_iff key "EU-AI-ACT-ART6" in
    let annex = starts_with_iff key "EU-AI-ACT-ANNEXIII" in
    (
      λ h. elim (Bool-cases (starts_with key "EU-AI-ACT-ART6")) [
        | inl q ↦ inl (six.0 q)
        | inr q ↦ elim (Bool-cases (starts_with key "EU-AI-ACT-ANNEXIII")) [
          | inl p ↦ inr (annex.0 p)
          | inr p ↦ absurd (let z = rw (q, p) at h in cc)
        ]
      ],
      λ h. elim h [
        | inl a ↦ let q = six.1 a in rw q refl
        | inr a ↦
            let p = annex.1 a in
            elim (Bool-cases (starts_with key "EU-AI-ACT-ART6")) [
              | inl q ↦ rw q refl
              | inr q ↦ rw (q, p) refl
            ]
      ],
    )

Concerns-bare :
    (category : ClassificationCategory)
    → is_empty (category_key_prefixes category) ≡ true
    → (key : String) → ¬ Concerns category key
unfolding category_key_prefixes
Concerns-bare scope h key c = c
Concerns-bare gpai h key c = c
Concerns-bare transparency h key c = c
Concerns-bare prohibited_practices h key c = cc
Concerns-bare high_risk h key c = cc

abbrev dormant : ClassificationCategory → Date → CategoryClassification
dormant category as_of = record {
  category = category;
  state = not_applicable;
  cited_requirements = [];
  rationale = none_in_force category as_of;
  confidence = one;
}

not_yet_in_force_lem :
    (category : ClassificationCategory) (as_of : Date)
    → not_yet_in_force category as_of ≡ ok (dormant category as_of)
unfolding not_yet_in_force validate classification_fields require_citation_for_affirmative_states
not_yet_in_force_lem category as_of =
    rw (is_nonempty-append "Legal requirements exist for category=" _ refl)

not_ingested_lem :
    (category : ClassificationCategory)
    → insufficient category (not_ingested category) ≡ ok (unsure category (not_ingested category))
not_ingested_lem category =
    insufficient_lem category _
      (is_nonempty-append "No legal requirements ingested for category=" _ refl)

module _ (engine : Engine) (store : LegalStore) (facts : ExtractedFacts) where
  -- The tables hold a requirement that concerns a category and applies to the first role of the system, or to
  -- any role where it has none; on a day, where one is given.
  pub record HasRequirement (category : ClassificationCategory) (day : Option Date) : Type 0 where
    pub result : RequirementResult
    pub answer : Answers engine store none (first facts.actor_roles) day result
    pub concerns : Concerns category result.requirement_key

module _ {S : Type 0} (client : LlmClient S) (rendering : Rendering)
    (decode : String → Result CategoryClassification) (engine : Engine) (store : LegalStore)
    (facts : ExtractedFacts) (as_of : Date) where
  abbrev nothing_retrieved : ClassificationCategory → Option Date → Bool
  nothing_retrieved category day = is_empty (
      candidates_for client rendering decode engine store facts as_of
        (category_key_prefixes category) day)

  retrieved-cases :
      (category : ClassificationCategory) (day : Option Date)
      → ((nothing_retrieved category day ≡ true)
          × (¬ HasRequirement engine store facts category day))
        ⊎ ((nothing_retrieved category day ≡ false)
            × ∥ HasRequirement engine store facts category day ∥₁)
  retrieved-cases category day =
      let role = first facts.actor_roles in
      elim (retrieve-cases engine store (facts.system_description +s " " +s facts.intended_purpose)
        none role day (category_key_prefixes category) 9) [
          | inl (none_kept, unfound) ↦ inl (
            none_kept,
            λ x. unfound (record {
              found = x.result;
              queried = (find_requirements_iff engine store none role day x.result).1 ∣ x.answer ∣₁;
              in_scope = (Concerns-iff category x.result.requirement_key).1 x.concerns;
            }),
          )
          | inr (kept, found) ↦ inr (
            kept,
            ∥∥₁_elim found ∥∥₁_prop (λ f.
                ∥∥₁_elim ((find_requirements_iff engine store none role day f.found).0 f.queried)
                  ∥∥₁_prop
                  (λ a. ∣ record {
                    result = f.found;
                    answer = a;
                    concerns = (Concerns-iff category f.found.requirement_key).0 f.in_scope;
                  } ∣₁)),
          )
        ]

  -- What the two ways of settling a category say of its requirements at any time.
  Settles : ClassificationCategory → CategoryClassification → Type 0
  Settles category a =
      ((a.state ≡ not_applicable) ↔ ∥ HasRequirement engine store facts category none ∥₁)
      × ((a.state ≡ insufficient_information) ↔ (¬ HasRequirement engine store facts category none))

  unsure-Settles :
      (category : ClassificationCategory) (rationale : String)
      → (¬ HasRequirement engine store facts category none)
      → Settles category (unsure category rationale)
  unfolding Settles
  unsure-Settles category rationale lacking = (
    (λ e. absurd (cc), λ has. absurd (∥∥₁_elim has (λ x y. absurd x) lacking)),
    (λ e. lacking, λ h. refl),
  )

  dormant-Settles :
      (category : ClassificationCategory)
      → ∥ HasRequirement engine store facts category none ∥₁
      → Settles category (dormant category as_of)
  unfolding Settles
  dormant-Settles category has = (
    (λ e. has, λ h. refl),
    (λ e. absurd (cc), λ lacking. absurd (∥∥₁_elim has (λ x y. absurd x) lacking)),
  )

  -- The tables hold no requirement that concerns the category, applies to the first role of the system (to
  -- whichever, if the system has none) and is in force on the day. Then the category is settled without a
  -- call of the model: as NOT_APPLICABLE exactly if they hold one whose period the day does not lie in, and as
  -- INSUFFICIENT_INFORMATION exactly if they hold none for that role at all.
  pub nothing_in_force :
      (category : ClassificationCategory) (s : S)
      → (¬ HasRequirement engine store facts category (some as_of))
      → (a : CategoryClassification) × (assess_category client rendering decode engine store facts
            as_of category s
          ≡ (ok a, s))
        × (a.category ≡ category)
        × ((a.state ≡ not_applicable) ↔ ∥ HasRequirement engine store facts category none ∥₁)
        × ((a.state ≡ insufficient_information)
            ↔ (¬ HasRequirement engine store facts category none))
  unfolding assess_category Settles
  nothing_in_force category s missing =
      elim (Bool-cases (is_empty (category_key_prefixes category))) [
        | inl bare ↦
            let (not_applicable_iff, insufficient_iff) =
              unsure-Settles category (not_ingested category)
                (λ x. Concerns-bare category bare x.result.requirement_key x.concerns) in
            (
              unsure category (not_ingested category),
              rw (bare, not_ingested_lem category) refl,
              refl,
              not_applicable_iff,
              insufficient_iff,
            )
        | inr scoped ↦ elim (retrieved-cases category (some as_of)) [
          | inr (kept, has) ↦ absurd (∥∥₁_elim has (λ x y. absurd x) missing)
          | inl (none_now, unfound) ↦ elim (retrieved-cases category none) [
            | inl (never, lacking) ↦
                let (not_applicable_iff, insufficient_iff) =
                  unsure-Settles category (not_ingested category) lacking in
                (
                  unsure category (not_ingested category),
                  rw (scoped, none_now, never, not_ingested_lem category) refl,
                  refl,
                  not_applicable_iff,
                  insufficient_iff,
                )
            | inr (later, has) ↦
                let (not_applicable_iff, insufficient_iff) = dormant-Settles category has in
                (
                  dormant category as_of,
                  rw (scoped, none_now, later, not_yet_in_force_lem category as_of) refl,
                  refl,
                  not_applicable_iff,
                  insufficient_iff,
                )
          ]
        ]
      ]
