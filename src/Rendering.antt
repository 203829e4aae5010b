-- ===== src/Rendering.antt =====
-- Text that libraries produce and the program only passes on: Pydantic's JSON, and Python's `repr`.
use eu_ai_act_compliance.Prelude.{String, List}
use eu_ai_act_compliance.Schemas.Facts.{ExtractedFacts}
use eu_ai_act_compliance.Schemas.Floats.{Float}

pub record Rendering : Type 0 where
  -- `facts.model_dump_json(indent=2)`
  pub facts_json : ExtractedFacts → String
  -- `json.dumps(Model.model_json_schema())`
  pub classification_schema_json : String
  pub evidence_schema_json : String
  -- `repr(text)` and `repr(list(texts))`
  pub repr : String → String
  pub repr_list : List String → String
  -- `str(number)`
  pub float_str : Float → String

abbrev pub plain : Rendering
plain = record {
  facts_json = λ f. f.system_description;
  classification_schema_json = "{}";
  evidence_schema_json = "{}";
  repr = λ s. s;
  repr_list = λ l. "[]";
  float_str = λ x. "0.5";
}
