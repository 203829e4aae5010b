-- ===== src/Legal/Ingest/Seed.antt =====
-- src/legal/ingest.py: the seeds of the legal corpus and the dates from which they apply.
use eu_ai_act_compliance.Prelude.{String, List, Option}
use eu_ai_act_compliance.Calendar.{Date, on}
use eu_ai_act_compliance.Schemas.Enums.ActorRole.{ActorRole}

pub record ProvisionSeed : Type 0 where
  pub citation : String
  pub heading : String
  pub text_file : String
  pub effective_date : Date

pub record ExceptionSeed : Type 0 where
  pub description : String
  pub provision_citation : String

pub record RequirementSeed : Type 0 where
  pub requirement_key : String
  pub summary : String
  pub provision_citation : String
  pub actor_role : Option ActorRole
  pub annex_iii_category : Option String
  pub temporal_start : Date
  pub exceptions : List ExceptionSeed

pub record CrosswalkSeed : Type 0 where
  pub requirement_key : String
  pub citation : String
  pub text_file : String

-- The constructors, with the fields in their order.
abbrev pub provision_seed : String → String → String → Date → ProvisionSeed
provision_seed citation heading text_file effective_date = record {
  citation = citation;
  heading = heading;
  text_file = text_file;
  effective_date = effective_date;
}

abbrev pub exception_seed : String → String → ExceptionSeed
exception_seed description provision_citation = record {
  description = description;
  provision_citation = provision_citation;
}

abbrev pub requirement_seed :
    String
    → String
    → String
    → Option ActorRole
    → Option String
    → Date
    → List ExceptionSeed
    → RequirementSeed
requirement_seed key summary provision_citation actor_role category temporal_start exceptions =
    record {
      requirement_key = key;
      summary = summary;
      provision_citation = provision_citation;
      actor_role = actor_role;
      annex_iii_category = category;
      temporal_start = temporal_start;
      exceptions = exceptions;
    }

abbrev pub crosswalk_seed : String → String → String → CrosswalkSeed
crosswalk_seed key citation text_file = record {
  requirement_key = key;
  citation = citation;
  text_file = text_file;
}

abbrev pub prohibited_practices_start : Date
prohibited_practices_start = on 2025 2 2

abbrev pub high_risk_general_start : Date
high_risk_general_start = on 2026 8 2

abbrev pub article_6_1_start : Date
article_6_1_start = on 2027 8 2

abbrev pub gdpr_high_risk_start : Date
gdpr_high_risk_start = on 2018 5 25
