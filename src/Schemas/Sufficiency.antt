-- ===== src/Schemas/Sufficiency.antt =====
-- What the validators of schemas/evidence.py guarantee.
use eu_ai_act_compliance.Prelude.{
  ℕ, ◌+◌, ◌≤◌, true, false, List, [], ◌∷◌, map, ◌≡◌, refl, arith, all, if◌then◌else◌,
}
use eu_ai_act_compliance.Result.{ok}
use eu_ai_act_compliance.Schemas.Enums.Dimension
use eu_ai_act_compliance.Schemas.Enums.Dimension.{
  EvidenceDimension, relevance, completeness, specificity, currency, traceability, consistency,
  sufficiency,
}
use eu_ai_act_compliance.Schemas.Enums.EvidenceStatus
use eu_ai_act_compliance.Schemas.Enums.EvidenceStatus.{compliant}
use eu_ai_act_compliance.Schemas.Evidence.{
  DimensionAssessment, EvidenceAssessment, includes, has_duplicates, assessment_fields,
  dimensions_cover_all_seven_exactly_once, compliant_status_requires_all_dimensions_met, validate,
}

-- How often a dimension is assessed.
abbrev pub count : EvidenceDimension → List DimensionAssessment → ℕ
count d [] = 0
count d (x ∷ xs) = (if Dimension.eq x.dimension d then 1 else 0) + count d xs

includes-pos :
    (d : EvidenceDimension) (xs : List DimensionAssessment)
    → includes d (map (λ x. x.dimension) xs) ≡ true
    → 1 ≤ count d xs
unfolding includes
includes-pos d [] h = cc
includes-pos d (x ∷ xs) h = ground (arith, includes-pos d xs)

count-eq-zero :
    (d : EvidenceDimension) (xs : List DimensionAssessment)
    → includes d (map (λ x. x.dimension) xs) ≡ false
    → count d xs ≡ 0
unfolding includes
count-eq-zero d [] h = refl
count-eq-zero d (x ∷ xs) h = ground (arith, count-eq-zero d xs)

no_duplicates-le :
    (d : EvidenceDimension) (xs : List DimensionAssessment)
    → has_duplicates (map (λ x. x.dimension) xs) ≡ false
    → count d xs ≤ 1
unfolding has_duplicates
no_duplicates-le d [] h = omega arith
no_duplicates-le d (x ∷ xs) h =
    ground (arith, no_duplicates-le d xs, count-eq-zero d xs, Dimension.eq_iff x.dimension d)

-- What an assessment satisfies once it has been built.
pub record IsValid (a : EvidenceAssessment) : Type 0 where
  pub fields : assessment_fields a ≡ true
  pub seven : (d : EvidenceDimension) → count d a.dimensions ≡ 1
  pub supported : EvidenceStatus.eq a.status compliant ≡ true → all (λ d. d.met) a.dimensions ≡ true

every_dimension :
    (xs : List DimensionAssessment)
    → all (λ d. includes d (map (λ x. x.dimension) xs)) Dimension.members ≡ true
    → (d : EvidenceDimension) → includes d (map (λ x. x.dimension) xs) ≡ true
every_dimension xs h relevance = ground arith
every_dimension xs h _ = ground arith

validate-covers :
    (a b : EvidenceAssessment)
    → validate a ≡ ok b
    → (d : EvidenceDimension) → count d a.dimensions ≡ 1
unfolding validate dimensions_cover_all_seven_exactly_once
validate-covers a b h d =
    let unique : has_duplicates (map (λ x. x.dimension) a.dimensions) ≡ false = ground arith in
    let covers : all (λ e. includes e (map (λ x. x.dimension) a.dimensions)) Dimension.members
        ≡ true =
      ground arith in
    omega (
      arith,
      no_duplicates-le d a.dimensions unique,
      includes-pos d a.dimensions (every_dimension a.dimensions covers d),
    )

-- An assessment that is built is the one that was given, each of the seven dimensions is assessed
-- exactly once, and COMPLIANT stands only where every dimension is met.
pub validate-IsValid : (a b : EvidenceAssessment) → validate a ≡ ok b → (b ≡ a) × IsValid a
unfolding validate dimensions_cover_all_seven_exactly_once
    compliant_status_requires_all_dimensions_met
validate-IsValid a b h = (
  ground arith,
  record { fields = ground arith; seven = validate-covers a b h; supported = λ q. ground arith },
)
