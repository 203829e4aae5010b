-- ===== src/Schemas/Facts.antt =====
-- `ExtractedFacts` of schemas/facts.py.
use eu_ai_act_compliance.Prelude.{String, Bool, ◌&&◌, Option, List, is_nonempty}
use eu_ai_act_compliance.Result.{validation_error, Result, ok, ◌>>◌, require}
use eu_ai_act_compliance.Schemas.Enums.ActorRole.{ActorRole}

pub record ExtractedFacts : Type 0 where
  pub system_description : String
  pub intended_purpose : String
  pub actor_roles : List ActorRole
  pub sector : Option String
  pub deployment_context : Option String
  pub affected_persons_description : Option String
  pub decisions_or_outcomes_influenced : Option String
  pub technology_description : Option String
  pub human_oversight_description : Option String
  pub uses_biometric_data : Option Bool
  pub uses_profiling : Option Bool
  pub is_safety_component_of_regulated_product : Option Bool
  pub insufficient_information_fields : List String

-- The two `min_length=1` fields.
unfoldable pub validate : ExtractedFacts → Result ExtractedFacts
validate f = do
  require (is_nonempty f.system_description && is_nonempty f.intended_purpose)
      (validation_error "String should have at least 1 character")
  ok f
