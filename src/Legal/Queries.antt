-- ===== src/Legal/Queries.antt =====
-- src/legal/queries.py: read queries over the legal tables. A join is a selection from the product
-- of its tables.
pub mod Product
pub mod Filters
pub mod Answers
pub mod ByKey
use eu_ai_act_compliance.Prelude.{
  String, Bool, true, false, not, ◌&&◌, ◌||◌, Option, none, some, List, [], ◌∷◌, ◌++◌, map, str_eq,
  is_some, first,
}
use eu_ai_act_compliance.Calendar.{Date, le}
use eu_ai_act_compliance.Persistence.Engine.{Engine}
use eu_ai_act_compliance.Persistence.Models.{
  LegalProvision, Requirement, ApplicabilityCondition, LegalException, FrameworkCrosswalk,
}
use eu_ai_act_compliance.Schemas.Enums.ActorRole
use eu_ai_act_compliance.Schemas.Enums.ActorRole.{ActorRole, any}
use eu_ai_act_compliance.Legal.Store.{LegalStore}

pub record RequirementResult : Type 0 where
  pub requirement_key : String
  pub summary : String
  pub citation : String
  pub provision_text : String
  pub exceptions : List String

pub record CrosswalkResult : Type 0 where
  pub framework_name : String
  pub citation : String
  pub citation_text : String
  pub source_url : String

-- FROM a, b
abbrev pub product : {A B : Type 0} → List A → List B → List (A × B)
product [] bs = []
product (a ∷ as') bs = map (λ b. (a, b)) bs ++ product as' bs

-- A comparison with NULL does not hold.
abbrev pub text_is : Option String → String → Bool
text_is none text = false
text_is (some s) text = str_eq s text

abbrev pub role_is : Option ActorRole → ActorRole → Bool
role_is none role = false
role_is (some r) role = ActorRole.eq r role

-- A filter that is None is not applied.
abbrev pub category_filter : Option String → ApplicabilityCondition → Bool
category_filter none c = true
category_filter (some category) c = text_is c.annex_iii_category category

abbrev pub role_filter : Option ActorRole → ApplicabilityCondition → Bool
role_filter none c = true
role_filter (some role) c = role_is c.actor_role role || role_is c.actor_role any

abbrev pub ends_on_or_after : Option Date → Date → Bool
ends_on_or_after none day = true
ends_on_or_after (some end) day = le day end

abbrev pub date_filter : Option Date → ApplicabilityCondition → Bool
date_filter none c = true
date_filter (some day) c = le c.temporal_start day && ends_on_or_after c.temporal_end day

-- `Requirement.superseded_by_id.is_(None)`
abbrev pub is_current : Requirement → Bool
is_current r = not (is_some r.superseded_by_id)

abbrev pub with_provision : Requirement → LegalProvision → Bool
with_provision r p = str_eq p.id r.primary_provision_id

module _ (engine : Engine) (store : LegalStore) where
  -- `select(LegalException.description).where(requirement_id == requirement.id)`
  unfoldable pub exceptions_of : Requirement → List String
  exceptions_of r =
      map (λ e. e.description)
        (engine.rows LegalException (λ e. str_eq e.requirement_id r.id) store.exceptions)

  abbrev pub to_result : Requirement → LegalProvision → RequirementResult
  to_result r p = record {
    requirement_key = r.requirement_key;
    summary = r.summary;
    citation = p.citation;
    provision_text = p.text;
    exceptions = exceptions_of r;
  }

  abbrev pub Row : Type 0
  Row = (Requirement × LegalProvision) × ApplicabilityCondition

  abbrev pub applies : Option String → Option ActorRole → Option Date → Row → Bool
  applies annex_iii_category actor_role as_of ((r, p), c) =
      str_eq c.requirement_id r.id
      && with_provision r p
      && is_current r
      && category_filter annex_iii_category c
      && role_filter actor_role c
      && date_filter as_of c

  unfoldable pub find_requirements :
      (annex_iii_category : Option String) (actor_role : Option ActorRole) (as_of : Option Date)
      → List RequirementResult
  find_requirements annex_iii_category actor_role as_of =
      map (λ ((r, p), c). to_result r p)
        (engine.rows Row (applies annex_iii_category actor_role as_of) (
          product (product store.requirements store.legal_provisions)
            store.applicability_conditions))

  abbrev pub has_key : String → Requirement × LegalProvision → Bool
  has_key key (r, p) = with_provision r p && str_eq r.requirement_key key && is_current r

  abbrev first_result : Option (Requirement × LegalProvision) → Option RequirementResult
  first_result none = none
  first_result (some (r, p)) = some (to_result r p)

  unfoldable pub find_requirement_by_key : String → Option RequirementResult
  find_requirement_by_key key = first_result (
      first (
        engine.rows (Requirement × LegalProvision) (has_key key)
          (product store.requirements store.legal_provisions)))

  unfoldable pub find_crosswalks_by_requirement_key : String → List CrosswalkResult
  find_crosswalks_by_requirement_key key =
      map
        (λ (cw, r). record {
          framework_name = cw.framework_name;
          citation = cw.citation;
          citation_text = cw.citation_text;
          source_url = cw.source_url;
        })
        (engine.rows (FrameworkCrosswalk × Requirement)
          (λ (cw, r). str_eq r.id cw.requirement_id && str_eq r.requirement_key key && is_current r)
          (product store.framework_crosswalks store.requirements))

  unfoldable pub find_provision_text_by_citation : String → Option String
  find_provision_text_by_citation citation = first (
      map (λ p. p.text)
        (engine.rows LegalProvision
          (λ p. str_eq p.citation citation && not (is_some p.superseded_by_id))
          store.legal_provisions))
