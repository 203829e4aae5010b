-- ===== src/Schemas/Classification.antt =====
-- schemas/classification.py: the model's classification of a system. Building a value runs the
-- field constraints and then the validators, so it either raises or gives the value back.
use eu_ai_act_compliance.Prelude.{
  String, Bool, true, false, not, ◌&&◌, ◌||◌, ◌==◌ as nat_eq, List, [], ◌∷◌, map, length,
  is_nonempty, is_empty, all, if◌then◌else◌,
}
use eu_ai_act_compliance.Result.{
  validation_error, stop_iteration, Result, ok, err, ◌>>=◌, ◌>>◌, require,
}
use eu_ai_act_compliance.Schemas.Floats.{Float, le, zero, one}
use eu_ai_act_compliance.Schemas.Enums.Category
use eu_ai_act_compliance.Schemas.Enums.Category.{ClassificationCategory}
use eu_ai_act_compliance.Schemas.Enums.State.{ClassificationState, yes_state, possibly}

-- `state in CITED_STATES`
unfoldable pub in_cited_states : ClassificationState → Bool
in_cited_states yes_state = true
in_cited_states possibly = true
in_cited_states _ = false

pub record CitedRequirement : Type 0 where
  pub requirement_key : String
  pub citation : String
  pub relevance : String

pub record CategoryClassification : Type 0 where
  pub category : ClassificationCategory
  pub state : ClassificationState
  pub cited_requirements : List CitedRequirement
  pub rationale : String
  pub confidence : Float

unfoldable pub cited_fields : CitedRequirement → Bool
cited_fields c = is_nonempty c.requirement_key && is_nonempty c.citation && is_nonempty c.relevance

unfoldable pub classification_fields : CategoryClassification → Bool
unfolding cited_fields le one
classification_fields a =
    all cited_fields a.cited_requirements
    && is_nonempty a.rationale
    && le zero a.confidence
    && le a.confidence one

-- `require_citation_for_affirmative_states`
unfoldable pub require_citation_for_affirmative_states :
    CategoryClassification → Result CategoryClassification
unfolding in_cited_states
require_citation_for_affirmative_states a =
    if in_cited_states a.state && is_empty a.cited_requirements
    then err (validation_error "requires at least one cited_requirement")
    else ok a

unfoldable pub validate : CategoryClassification → Result CategoryClassification
validate a = do
  require (classification_fields a) (validation_error "a field breaks its constraint")
  require_citation_for_affirmative_states a

pub record ClassificationResult : Type 0 where
  pub assessments : List CategoryClassification

-- `category in categories`
unfoldable pub includes : ClassificationCategory → List ClassificationCategory → Bool
includes c [] = false
includes c (x ∷ xs) = Category.eq x c || includes c xs

-- `require_every_category_exactly_once`. Both sides of the comparison of sets are spelled out;
-- every category that occurs is one of the enumeration, so only one inclusion can fail.
unfoldable pub require_every_category_exactly_once :
    ClassificationResult → Result ClassificationResult
unfolding includes
require_every_category_exactly_once r =
    let categories = map (λ a. a.category) r.assessments in
    if not (all (λ c. includes c categories) Category.members)
      || not (nat_eq (length categories) (length Category.members))
    then err (validation_error "must assess every category exactly once")
    else ok r

unfoldable pub validate_each : List CategoryClassification → Result (List CategoryClassification)
validate_each [] = ok []
validate_each (a ∷ as') = do a' ← validate a; rest ← validate_each as'; ok (a' ∷ rest)

-- `ClassificationResult(assessments=...)`, and `model_validate_json` behind the JSON parser.
-- A list of values that were already validated is not validated again member by member.
unfoldable pub classification_result : List CategoryClassification → Result ClassificationResult
unfolding require_every_category_exactly_once
classification_result assessments =
    require_every_category_exactly_once (record { assessments = assessments })

unfoldable pub validate_result : ClassificationResult → Result ClassificationResult
unfolding validate_each classification_result
validate_result r = do assessments ← validate_each r.assessments; classification_result assessments

-- `next(a for a in assessments if a.category == category)`
unfoldable pub find_category :
    ClassificationCategory → List CategoryClassification → Result CategoryClassification
find_category c [] = err stop_iteration
find_category c (a ∷ rest) = if Category.eq a.category c then ok a else find_category c rest

unfoldable pub for_category :
    ClassificationResult → ClassificationCategory → Result CategoryClassification
unfolding find_category
for_category r c = find_category c r.assessments
