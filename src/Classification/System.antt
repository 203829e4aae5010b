-- ===== src/Classification/System.antt =====
-- What `classify_system` guarantees over the five categories.
use eu_ai_act_compliance.Prelude.{
  String, none, some, List, [], ◌∷◌, is_empty, ◌≡◌, refl, arith, sym, subst, inl, inr, Bool-cases,
}
use eu_ai_act_compliance.Result.{Result, ok}
use eu_ai_act_compliance.Exec.{bind-eq-ok}
use eu_ai_act_compliance.Rendering.{Rendering}
use eu_ai_act_compliance.Calendar.{Date}
use eu_ai_act_compliance.Llm.{LlmClient}
use eu_ai_act_compliance.Llm.Guarantees.{IsSound}
use eu_ai_act_compliance.Persistence.Engine.{Engine}
use eu_ai_act_compliance.Legal.Store.{LegalStore}
use eu_ai_act_compliance.Retrieval.{RetrievedRequirement}
use eu_ai_act_compliance.Schemas.Facts.{ExtractedFacts}
use eu_ai_act_compliance.Schemas.Enums.Category
use eu_ai_act_compliance.Schemas.Enums.Category.{
  ClassificationCategory, scope, prohibited_practices, high_risk, gpai, transparency,
}
use eu_ai_act_compliance.Schemas.Classification.{
  CategoryClassification, ClassificationResult, classification_result,
}
use eu_ai_act_compliance.Schemas.Validity.{validate-eq-ok}
use eu_ai_act_compliance.Classification.{
  category_key_prefixes, not_yet_in_force, candidates_for, assess_category, assess_categories,
  classify_system,
}
use eu_ai_act_compliance.Classification.Verdicts.{
  IsGrounded, insufficient-eq-ok, classify_category-IsGrounded,
}

not_yet_in_force-eq-ok :
    (category : ClassificationCategory) (as_of : Date) (candidates : List RetrievedRequirement)
    (a : CategoryClassification)
    → not_yet_in_force category as_of ≡ ok a
    → IsGrounded category candidates a
unfolding not_yet_in_force
not_yet_in_force-eq-ok category as_of candidates a h =
    let (e, valid) = validate-eq-ok _ a h in
    subst (IsGrounded category candidates) (sym e) (record {
      same_category = refl;
      well_formed = valid;
      cites_only = refl;
      cites_something = valid.cited;
    })

module _ {S : Type 0} (client : LlmClient S) (rendering : Rendering)
    (decode : String → Result CategoryClassification) (engine : Engine) (store : LegalStore)
    (facts : ExtractedFacts) (as_of : Date) where
  -- What is retrieved for a category as in force on the day, for the first role of the system.
  abbrev pub in_force : ClassificationCategory → List RetrievedRequirement
  in_force category =
      candidates_for client rendering decode engine store facts as_of
        (category_key_prefixes category) (some as_of)

  abbrev pub at_any_time : ClassificationCategory → List RetrievedRequirement
  at_any_time category =
      candidates_for client rendering decode engine store facts as_of
        (category_key_prefixes category) none

  assess_category-IsGrounded :
      IsSound client
      → (category : ClassificationCategory) (s : S) (a : CategoryClassification)
      → (assess_category client rendering decode engine store facts as_of category s).0 ≡ ok a
      → IsGrounded category (in_force category) a
  unfolding assess_category
  assess_category-IsGrounded sound category s a h =
      elim (Bool-cases (is_empty (category_key_prefixes category))) [
        | inl bare ↦ insufficient-eq-ok category _ _ a (rw bare at h)
        | inr scoped ↦ elim (Bool-cases (is_empty (in_force category))) [
          | inr found ↦
              classify_category-IsGrounded client rendering decode sound category facts _ s a
                (rw (scoped, found) at h)
          | inl missing ↦ elim (Bool-cases (is_empty (at_any_time category))) [
            | inl never ↦ insufficient-eq-ok category _ _ a (rw (scoped, missing, never) at h)
            | inr later ↦
                not_yet_in_force-eq-ok category as_of _ a (rw (scoped, missing, later) at h)
          ]
        ]
      ]

  -- One grounded assessment for each category of the list, in its order.
  abbrev pub Assessed : List ClassificationCategory → List CategoryClassification → Type 0
  Assessed [] [] = Unit
  Assessed (c ∷ cs) (a ∷ as') = IsGrounded c (in_force c) a × Assessed cs as'
  Assessed _ _ = ⊥

  assess_categories-Assessed :
      IsSound client
      → (categories : List ClassificationCategory) (s : S) (xs : List CategoryClassification)
      → (assess_categories client rendering decode engine store facts as_of categories s).0 ≡ ok xs
      → Assessed categories xs
  unfolding assess_categories
  assess_categories-Assessed sound [] s xs h = let e : [] ≡ xs = cc in subst (Assessed []) e tt
  assess_categories-Assessed sound (c ∷ cs) s xs h =
      let (a, ea, rest) =
        bind-eq-ok (assess_category client rendering decode engine store facts as_of c) _ s h in
      let (more, em, last) =
        bind-eq-ok (assess_categories client rendering decode engine store facts as_of cs) _ _
          rest in
      let e : a ∷ more ≡ xs = cc in
      subst (Assessed (c ∷ cs)) e
        (assess_category-IsGrounded sound c s a ea, assess_categories-Assessed sound cs _ more em)

  -- The classification of a system holds exactly one assessment for each of the five categories, in
  -- the order of the enumeration, each of them grounded in the requirements that are retrieved for the
  -- category as in force on the day, for the first role of the system.
  pub classify_system-Assessed :
      IsSound client
      → (s : S) (r : ClassificationResult)
      → (classify_system client rendering decode engine store facts as_of s).0 ≡ ok r
      → Assessed Category.members r.assessments
  unfolding classify_system classification_result
  classify_system-Assessed sound s r h =
      let (xs, e, last) =
        bind-eq-ok
          (assess_categories client rendering decode engine store facts as_of Category.members) _ s
          h in
      let same : record { assessments = xs } ≡ r = accepted xs r last in
      subst (λ (q : ClassificationResult). Assessed Category.members q.assessments) same
        (assess_categories-Assessed sound Category.members s xs e)
    where
      accepted :
          (xs : List CategoryClassification) (r : ClassificationResult)
          → classification_result xs ≡ ok r
          → ◌≡◌ {A = ClassificationResult} (record { assessments = xs }) r
      accepted xs r h = ground arith
