-- ===== src/Examples/Recorded.antt =====
-- A printer and a parser of one assessment, which is recorded and read back.
use mathlib.Core.List.{not-mem-nil}
use eu_ai_act_compliance.Prelude.{
  ℕ, suc, zero, String, true, false, List, [], ◌∷◌, map, take, none, some, ◌≡◌, ◌≢◌, refl, ap,
  str_eq, if◌then◌else◌,
}
use eu_ai_act_compliance.Result.{ok, err, key_error, traverse}
use eu_ai_act_compliance.Schemas.Classification
use eu_ai_act_compliance.Schemas.Classification.{validate_result}
use eu_ai_act_compliance.Schemas.Facts
use eu_ai_act_compliance.Schemas.Enums.Category.{prohibited_practices}
use eu_ai_act_compliance.Obligations.{Obligation}
use eu_ai_act_compliance.Review.{ReviewFlag, evidence_gap}
use eu_ai_act_compliance.Persistence.Engine.{in_table_order}
use eu_ai_act_compliance.Persistence.Tenancy.{SessionInfo, is_cross_tenant, bound_tenant_id}
use eu_ai_act_compliance.Observability.Instrumentation.{LlmCallRecord}
use eu_ai_act_compliance.Observability.Serialization.{
  Dict, IsoFormat, obligation_to_dict, gap_to_dict, review_flag_to_dict, llm_call_record_to_dict,
}
use eu_ai_act_compliance.Observability.AssessmentLog.{
  Codec, Assessment, record_assessment, reconstruct_assessment,
}
use eu_ai_act_compliance.Observability.AssessmentLog.Stored.{
  ReadsBack, IsValid, whole, reconstruct_assessment-record_assessment,
}
use eu_ai_act_compliance.Examples.{facts, in_2025, classified}

-- An instant as so many strokes.
unfoldable pub strokes : ℕ → String
strokes zero = ""
strokes (suc n) = String.◌∷◌ "1" (strokes n)

unfoldable pub count : String → ℕ
count String.[] = zero
count (String.◌∷◌ c s) = suc (count s)

pub count-strokes : (n : ℕ) → count (strokes n) ≡ n
unfolding count strokes
count-strokes zero = refl
count-strokes (suc n) = ap suc (count-strokes n)

abbrev pub iso : IsoFormat
iso = record {
  isoformat = strokes;
  fromisoformat = λ s. ok (count s);
  fromisoformat-isoformat = λ n. ap ok (count-strokes n);
}

abbrev owed : Obligation
owed = record {
  requirement_key = "EU-AI-ACT-ART5";
  citation = "Article 5";
  summary = "Prohibited practices";
  triggered_by = prohibited_practices;
}

abbrev flagged : ReviewFlag
flagged = record { trigger = evidence_gap; detail = "Nothing was shown." }

abbrev pub call : LlmCallRecord
call = record {
  timestamp = 2;
  provider = "fake";
  model = "m";
  prompt_version = "v1";
  response_model_name = "CategoryClassification";
  succeeded = true;
  input_tokens = 3;
  output_tokens = 4;
  retried = false;
  latency_ms = 5;
  error = none;
}

-- A list of dictionaries is printed as the last key of its first dictionary.
abbrev pub last_key : Dict → String
last_key [] = ""
last_key ((key, v) ∷ []) = key
last_key (item ∷ rest) = last_key rest

abbrev pub printed : List Dict → String
printed [] = "[]"
printed (d ∷ ds) = last_key d

-- The printers and the parsers for the parts of one assessment, and for its first call alone.
abbrev pub reader : Assessment → Codec
reader a = record {
  dumps = printed;
  loads = λ raw.
      if str_eq raw "[]"
      then ok []
      else if str_eq raw "triggered_by"
      then ok (map obligation_to_dict a.obligations)
      else if str_eq raw "rationale"
      then ok (map gap_to_dict a.gaps)
      else if str_eq raw "detail"
      then ok (map review_flag_to_dict a.review_flags)
      else if str_eq raw "error"
      then ok (map (llm_call_record_to_dict iso) a.llm_calls)
      else if str_eq raw "first"
      then ok (map (llm_call_record_to_dict iso) (take 1 a.llm_calls))
      else err key_error;
  facts_dump = λ f. "facts";
  facts_parse = λ raw. ok a.facts;
  classification_dump = λ c. "classification";
  classification_parse = λ raw. ok a.classification;
  evidence_dump = λ es. "evidence";
  evidence_parse = λ raw. ok a.evidence_assessments;
  iso = iso;
}

abbrev made : Assessment
made = record {
  as_of = in_2025;
  legal_knowledge_source_key = "eu_ai_act_2024_1689";
  facts = facts;
  classification = classified;
  obligations = owed ∷ [];
  evidence_assessments = [];
  gaps = [];
  review_flags = flagged ∷ [];
  llm_calls = call ∷ [];
  error = none;
  ai_system_id = none;
  created_by_user_id = some "u";
}

abbrev codec : Codec
codec = reader made

made-ReadsBack : ReadsBack codec made
unfolding obligation_to_dict review_flag_to_dict llm_call_record_to_dict
made-ReadsBack = record {
  facts = refl;
  classification = refl;
  evidence = refl;
  obligations = refl;
  gaps = refl;
  review_flags = refl;
  llm_calls = refl;
}

made-IsValid : IsValid made
unfolding traverse Facts.validate validate_result Classification.validate
    Classification.classification_fields Classification.require_citation_for_affirmative_states
made-IsValid = record { facts = refl; classification = refl; evidence = refl }

abbrev acme : SessionInfo
acme = record { tenant_id = some "acme"; cross_tenant = none }

acme-guarded : is_cross_tenant acme ≡ false
unfolding is_cross_tenant
acme-guarded = refl

acme-bound : bound_tenant_id acme ≡ some "acme"
unfolding bound_tenant_id
acme-bound = refl

abbrev globex : SessionInfo
globex = record { tenant_id = some "globex"; cross_tenant = none }

globex-guarded : is_cross_tenant globex ≡ false
unfolding is_cross_tenant
globex-guarded = refl

globex-bound : bound_tenant_id globex ≡ some "globex"
unfolding bound_tenant_id
globex-bound = refl

globex-apart : ◌≢◌ {A = String} "globex" "acme"
globex-apart e = cc

reconstruct_assessment-record_assessment_example :
    ((record_assessment codec acme "a1" 7 made []).0 ≡ ok "a1")
    × (reconstruct_assessment codec in_table_order acme "a1"
          (record_assessment codec acme "a1" 7 made []).1
        ≡ ok (some (whole codec "a1" 7 made)))
    × (reconstruct_assessment codec in_table_order globex "a1"
          (record_assessment codec acme "a1" 7 made []).1
        ≡ ok none)
reconstruct_assessment-record_assessment_example =
    reconstruct_assessment-record_assessment codec "a1" 7 made acme acme-guarded acme-bound []
      in_table_order (λ r m. absurd (not-mem-nil m)) made-ReadsBack made-IsValid globex
      globex-guarded globex-bound globex-apart
