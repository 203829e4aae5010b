-- ===== src/Classification/Verdicts.antt =====
-- What `classify_category` guarantees: a grounded, well-formed answer for the category asked, or a
-- deliberate INSUFFICIENT_INFORMATION.
use eu_ai_act_compliance.Prelude.{
  String, true, false, not, List, [], ◌∷◌, map, filter, all, is_empty, contains, ◌≡◌, ◌↔◌, refl,
  arith, sym, subst, inl, inr, Bool-cases, ◌+s◌,
}
use eu_ai_act_compliance.Result.{structured_output_error, Result, ok, err, >>=-eq-ok}
use eu_ai_act_compliance.Rendering.{Rendering}
use eu_ai_act_compliance.Llm.{LlmCallMetadata, LlmClient}
use eu_ai_act_compliance.Llm.Guarantees.{IsSound}
use eu_ai_act_compliance.Retrieval.{RetrievedRequirement}
use eu_ai_act_compliance.Schemas.Facts.{ExtractedFacts}
use eu_ai_act_compliance.Schemas.Enums.Category
use eu_ai_act_compliance.Schemas.Enums.Category.{ClassificationCategory}
use eu_ai_act_compliance.Schemas.Classification.{
  CitedRequirement, CategoryClassification, in_cited_states, validate,
}
use eu_ai_act_compliance.Schemas.Validity.{IsValid, validate-eq-ok}
use eu_ai_act_compliance.Classification.{
  keys, verify_citations, insufficient, check_answer, answered, ask, classify_category,
}

-- Every citation names a candidate.
abbrev pub CitesOnly : List RetrievedRequirement → CategoryClassification → Type 0
CitesOnly candidates a =
    all (λ c. contains c.requirement_key (keys candidates)) a.cited_requirements ≡ true

-- What holds of an answer about a category: it is of that category and well formed, and where it
-- says YES or POSSIBLY it cites something, and only candidates.
pub record IsGrounded (category : ClassificationCategory) (candidates : List RetrievedRequirement)
    (a : CategoryClassification) : Type 0 where
  pub same_category : a.category ≡ category
  pub well_formed : IsValid a
  pub cites_only : CitesOnly candidates a
  pub cites_something : in_cited_states a.state ≡ true → is_empty a.cited_requirements ≡ false

-- The verification finds no problem exactly when every citation names a candidate.
pub verify_citations-empty_iff :
    (rendering : Rendering) (a : CategoryClassification) (candidates : List RetrievedRequirement)
    → (is_empty (verify_citations rendering a candidates) ≡ true) ↔ CitesOnly candidates a
unfolding verify_citations
verify_citations-empty_iff rendering a candidates = go a.cited_requirements
  where
    go :
        (cited : List CitedRequirement)
        → (is_empty (
              map
                (λ c. "cited unretrieved requirement_key " +s rendering.repr c.requirement_key)
                (filter (λ c. not (contains c.requirement_key (keys candidates))) cited))
            ≡ true)
          ↔ (all (λ c. contains c.requirement_key (keys candidates)) cited ≡ true)
    go [] = ground arith
    go (c ∷ cs) = ground (arith, go cs)

pub insufficient-eq-ok :
    (category : ClassificationCategory) (rationale : String)
    (candidates : List RetrievedRequirement) (a : CategoryClassification)
    → insufficient category rationale ≡ ok a
    → IsGrounded category candidates a
unfolding insufficient
insufficient-eq-ok category rationale candidates a h =
    let (e, valid) = validate-eq-ok _ a h in
    subst (IsGrounded category candidates) (sym e) (record {
      same_category = refl;
      well_formed = valid;
      cites_only = refl;
      cites_something = valid.cited;
    })

check_answer-IsGrounded :
    (rendering : Rendering) (category : ClassificationCategory)
    (candidates : List RetrievedRequirement) (c a : CategoryClassification)
    → IsValid c
    → check_answer rendering category candidates c ≡ ok a
    → IsGrounded category candidates a
unfolding check_answer
check_answer-IsGrounded rendering category candidates c a valid h =
    elim (Bool-cases (Category.eq c.category category)) [
      | inr other ↦ insufficient-eq-ok category _ candidates a (rw other at h)
      | inl same ↦ elim (Bool-cases (is_empty (verify_citations rendering c candidates))) [
        | inr problem ↦ insufficient-eq-ok category _ candidates a (rw (same, problem) at h)
        | inl fine ↦
            let e : c ≡ a = ground arith in
            subst (IsGrounded category candidates) e (record {
              same_category = (Category.eq_iff c.category category).0 same;
              well_formed = valid;
              cites_only = (verify_citations-empty_iff rendering c candidates).0 fine;
              cites_something = valid.cited;
            })
      ]
    ]

module _ {S : Type 0} (client : LlmClient S) (rendering : Rendering)
    (decode : String → Result CategoryClassification) where
  answered-IsGrounded :
      (category : ClassificationCategory) (candidates : List RetrievedRequirement)
      (r : Result (CategoryClassification × LlmCallMetadata)) (a : CategoryClassification)
      → ((c : CategoryClassification) (meta : LlmCallMetadata) → r ≡ ok (c, meta) → IsValid c)
      → answered client rendering decode category candidates r ≡ ok a
      → IsGrounded category candidates a
  unfolding answered
  answered-IsGrounded category candidates (ok (c, meta)) a valid h =
      check_answer-IsGrounded rendering category candidates c a (valid c meta refl) h
  answered-IsGrounded category candidates (err (structured_output_error m raw)) a valid h =
      insufficient-eq-ok category _ candidates a h
  answered-IsGrounded category candidates (err e) a valid h = cc

  pub validated-IsValid :
      IsSound client
      → (category : ClassificationCategory) (facts : ExtractedFacts)
        (candidates : List RetrievedRequirement) (s : S) (c : CategoryClassification)
        (meta : LlmCallMetadata)
      → (ask client rendering decode category facts candidates s).0 ≡ ok (c, meta)
      → IsValid c
  validated-IsValid sound category facts candidates s c meta h =
      let (raw, e) = sound.validated _ _ _ _ _ s c meta h in
      let (parsed, _, checked) = >>=-eq-ok (decode raw) validate e in
      let (same, valid) = validate-eq-ok parsed c checked in rw same valid

  -- Whatever the model answers, the classification of a category is of that category and well
  -- formed; where it says YES or POSSIBLY it cites at least one requirement, and every requirement
  -- that it cites is one of the candidates.
  pub classify_category-IsGrounded :
      IsSound client
      → (category : ClassificationCategory) (facts : ExtractedFacts)
        (candidates : List RetrievedRequirement) (s : S) (a : CategoryClassification)
      → (classify_category client rendering decode category facts candidates s).0 ≡ ok a
      → IsGrounded category candidates a
  unfolding classify_category
  classify_category-IsGrounded sound category facts [] s a h = insufficient-eq-ok category _ [] a h
  classify_category-IsGrounded sound category facts (q ∷ qs) s a h =
      answered-IsGrounded category (q ∷ qs) _ a (validated-IsValid sound category facts (q ∷ qs) s)
        h
