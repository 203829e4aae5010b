-- ===== src/Schemas/Evidence.antt =====
-- schemas/evidence.py: the model's assessment of the evidence for one obligation.
use eu_ai_act_compliance.Prelude.{
  String, Bool, false, not, ◌&&◌, ◌||◌, List, [], ◌∷◌, map, is_nonempty, is_empty, all,
  if◌then◌else◌,
}
use eu_ai_act_compliance.Result.{validation_error, Result, ok, err, ◌>>=◌, ◌>>◌, require}
use eu_ai_act_compliance.Schemas.Enums.Dimension
use eu_ai_act_compliance.Schemas.Enums.Dimension.{EvidenceDimension}
use eu_ai_act_compliance.Schemas.Enums.EvidenceStatus
use eu_ai_act_compliance.Schemas.Enums.EvidenceStatus.{EvidenceStatus, compliant}

pub record DimensionAssessment : Type 0 where
  pub dimension : EvidenceDimension
  pub met : Bool
  pub note : String

pub record EvidenceAssessment : Type 0 where
  pub requirement_key : String
  pub status : EvidenceStatus
  pub dimensions : List DimensionAssessment
  pub rationale : String
  pub contradictions : List String

-- `d in seen`
unfoldable pub includes : EvidenceDimension → List EvidenceDimension → Bool
includes d [] = false
includes d (x ∷ xs) = Dimension.eq x d || includes d xs

-- `len(seen) != len(set(seen))`
unfoldable pub has_duplicates : List EvidenceDimension → Bool
unfolding includes
has_duplicates [] = false
has_duplicates (x ∷ xs) = includes x xs || has_duplicates xs

unfoldable pub assessment_fields : EvidenceAssessment → Bool
assessment_fields a =
    is_nonempty a.requirement_key
    && not (is_empty a.dimensions)
    && all (λ d. is_nonempty d.note) a.dimensions
    && is_nonempty a.rationale

-- `dimensions_cover_all_seven_exactly_once`
unfoldable pub dimensions_cover_all_seven_exactly_once :
    EvidenceAssessment → Result EvidenceAssessment
unfolding includes has_duplicates
dimensions_cover_all_seven_exactly_once a =
    let seen = map (λ d. d.dimension) a.dimensions in
    if has_duplicates seen
    then err (validation_error "each dimension may be assessed at most once")
    else if not (all (λ d. includes d seen) Dimension.members)
    then err (validation_error "must assess all seven evidence dimensions")
    else ok a

-- `compliant_status_requires_all_dimensions_met`
unfoldable pub compliant_status_requires_all_dimensions_met :
    EvidenceAssessment → Result EvidenceAssessment
compliant_status_requires_all_dimensions_met a =
    if EvidenceStatus.eq a.status compliant && not (all (λ d. d.met) a.dimensions)
    then err (validation_error "status=COMPLIANT requires every assessed dimension to be met")
    else ok a

-- The field constraints, then the validators in the order of their definition.
unfoldable pub validate : EvidenceAssessment → Result EvidenceAssessment
validate a = do
  require (assessment_fields a) (validation_error "a field breaks its constraint")
  covered ← dimensions_cover_all_seven_exactly_once a
  compliant_status_requires_all_dimensions_met covered
