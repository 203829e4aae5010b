-- ===== src/Observability/AssessmentLog.antt =====
-- src/observability/assessment_log.py: an assessment is stored and read back. The table is the state; the
-- id and the clock's reading of a new row are given. Pydantic's and json's printers and parsers are
-- parameters; the validators that run behind a parser are the model's.
pub mod Stored
use eu_ai_act_compliance.Prelude.{
  ℕ, ◌+◌, String, Bool, true, false, not, List, [], ◌∷◌, ◌++◌, map, Option, none, some, str_eq,
  first, take, ltb, is_empty, ◌≡◌, if◌then◌else◌,
}
use eu_ai_act_compliance.Result.{Result, ok, err, traverse, ◌>>=◌}
use eu_ai_act_compliance.Calendar.{Date, DateTime}
use eu_ai_act_compliance.Schemas.Facts
use eu_ai_act_compliance.Schemas.Facts.{ExtractedFacts}
use eu_ai_act_compliance.Schemas.Classification.{ClassificationResult, validate_result}
use eu_ai_act_compliance.Schemas.Evidence
use eu_ai_act_compliance.Schemas.Evidence.{EvidenceAssessment}
use eu_ai_act_compliance.Obligations.{Obligation}
use eu_ai_act_compliance.Gaps.{Gap}
use eu_ai_act_compliance.Review.{ReviewFlag}
use eu_ai_act_compliance.Persistence.Engine.{Engine}
use eu_ai_act_compliance.Persistence.Models.{AssessmentRecord}
use eu_ai_act_compliance.Persistence.Tenancy.{
  SessionInfo, OrmObject, assessment_record, select_where, stamp_and_verify_writes,
}
use eu_ai_act_compliance.Observability.Retention.{assessment_records}
use eu_ai_act_compliance.Observability.Instrumentation.{LlmCallRecord}
use eu_ai_act_compliance.Observability.Serialization.{
  Dict, IsoFormat, obligation_to_dict, obligation_from_dict, gap_to_dict, gap_from_dict,
  review_flag_to_dict, review_flag_from_dict, llm_call_record_to_dict, llm_call_record_from_dict,
}

pub record Codec : Type 0 where
  -- `json.dumps` and `json.loads` of a list of dictionaries
  pub dumps : List Dict → String
  pub loads : String → Result (List Dict)
  -- `model_dump_json()`, and the parser of `model_validate_json` into the typed fields
  pub facts_dump : ExtractedFacts → String
  pub facts_parse : String → Result ExtractedFacts
  pub classification_dump : ClassificationResult → String
  pub classification_parse : String → Result ClassificationResult
  -- `json.dumps([e.model_dump(mode="json") for e in es])`, and the parser of `model_validate`
  pub evidence_dump : List EvidenceAssessment → String
  pub evidence_parse : String → Result (List EvidenceAssessment)
  pub iso : IsoFormat

-- The arguments of `record_assessment` and of what is read back.
pub record Assessment : Type 0 where
  pub as_of : Date
  pub legal_knowledge_source_key : String
  pub facts : ExtractedFacts
  pub classification : ClassificationResult
  pub obligations : List Obligation
  pub evidence_assessments : List EvidenceAssessment
  pub gaps : List Gap
  pub review_flags : List ReviewFlag
  pub llm_calls : List LlmCallRecord
  pub error : Option String
  pub ai_system_id : Option String
  pub created_by_user_id : Option String

pub record AssessmentSummary : Type 0 where
  pub assessment_id : String
  pub created_at : DateTime
  pub as_of : Date
  pub system_description : String
  pub requires_human_review : Bool
  pub error : Option String
  pub ai_system_id : Option String
  pub created_by_user_id : Option String

pub record ReconstructedAssessment : Type 0 where
  pub assessment_id : String
  pub created_at : DateTime
  pub assessment : Assessment
  pub total_input_tokens : ℕ
  pub total_output_tokens : ℕ
  pub total_latency_ms : ℕ

-- `sum(f(c) for c in calls)`
unfoldable pub sum_of : (LlmCallRecord → ℕ) → List LlmCallRecord → ℕ
sum_of f [] = 0
sum_of f (c ∷ calls) = f c + sum_of f calls

module _ (codec : Codec) where
  unfoldable pub record_of : (id : String) (now : DateTime) → Assessment → AssessmentRecord
  unfolding sum_of
  record_of id now a = record {
    id = id;
    tenant_id = none;
    ai_system_id = a.ai_system_id;
    created_by_user_id = a.created_by_user_id;
    created_at = now;
    as_of = a.as_of;
    legal_knowledge_source_key = a.legal_knowledge_source_key;
    facts_json = codec.facts_dump a.facts;
    classification_json = codec.classification_dump a.classification;
    obligations_json = codec.dumps (map obligation_to_dict a.obligations);
    evidence_assessments_json = codec.evidence_dump a.evidence_assessments;
    gaps_json = codec.dumps (map gap_to_dict a.gaps);
    review_flags_json = codec.dumps (map review_flag_to_dict a.review_flags);
    llm_calls_json = codec.dumps (map (llm_call_record_to_dict codec.iso) a.llm_calls);
    total_input_tokens = sum_of (λ c. c.input_tokens) a.llm_calls;
    total_output_tokens = sum_of (λ c. c.output_tokens) a.llm_calls;
    total_latency_ms = sum_of (λ c. c.latency_ms) a.llm_calls;
    error = a.error;
  }

  -- The record among the objects that a flush leaves.
  flushed : AssessmentRecord → List OrmObject → AssessmentRecord
  flushed r [] = r
  flushed r (assessment_record stamped ∷ rest) = stamped
  flushed r (_ ∷ rest) = flushed r rest

  -- `session.commit()` and `record.id`
  insert_flushed :
      AssessmentRecord
      → List AssessmentRecord
      → Result (Unit {0}) × List OrmObject
      → Result String × List AssessmentRecord
  unfolding flushed
  insert_flushed r table (ok u, objects) =
      (ok (flushed r objects).id, table ++ (flushed r objects ∷ []))
  insert_flushed r table (err e, objects) = (err e, table)

  unfoldable pub record_assessment :
      SessionInfo
      → (id : String) (now : DateTime) → Assessment
      → List AssessmentRecord
      → Result String × List AssessmentRecord
  unfolding record_of insert_flushed
  record_assessment info id now a table =
      insert_flushed (record_of id now a) table
        (stamp_and_verify_writes info (assessment_record (record_of id now a) ∷ []) [] [])

  unfoldable pub facts_validate_json : String → Result ExtractedFacts
  facts_validate_json raw = do fields ← codec.facts_parse raw; Facts.validate fields

  unfoldable pub classification_validate_json : String → Result ClassificationResult
  classification_validate_json raw = do
    fields ← codec.classification_parse raw
    validate_result fields

  unfoldable pub evidence_validate_json : String → Result (List EvidenceAssessment)
  unfolding traverse
  evidence_validate_json raw = do
    fields ← codec.evidence_parse raw
    traverse Evidence.validate fields

  -- `[from_dict(d) for d in json.loads(raw)]`
  unfoldable pub list_from_json : {A : Type 0} → (Dict → Result A) → String → Result (List A)
  unfolding traverse
  list_from_json from_dict raw = do ds ← codec.loads raw; traverse from_dict ds

  reconstructed : AssessmentRecord → Result ReconstructedAssessment
  unfolding facts_validate_json classification_validate_json evidence_validate_json list_from_json
  reconstructed r = do
    facts ← facts_validate_json r.facts_json
    classification ← classification_validate_json r.classification_json
    obligations ← list_from_json obligation_from_dict r.obligations_json
    evidence_assessments ← evidence_validate_json r.evidence_assessments_json
    gaps ← list_from_json gap_from_dict r.gaps_json
    review_flags ← list_from_json review_flag_from_dict r.review_flags_json
    llm_calls ← list_from_json (llm_call_record_from_dict codec.iso) r.llm_calls_json
    ok (record {
      assessment_id = r.id;
      created_at = r.created_at;
      assessment = record {
        as_of = r.as_of;
        legal_knowledge_source_key = r.legal_knowledge_source_key;
        facts = facts;
        classification = classification;
        obligations = obligations;
        evidence_assessments = evidence_assessments;
        gaps = gaps;
        review_flags = review_flags;
        llm_calls = llm_calls;
        error = r.error;
        ai_system_id = r.ai_system_id;
        created_by_user_id = r.created_by_user_id;
      };
      total_input_tokens = r.total_input_tokens;
      total_output_tokens = r.total_output_tokens;
      total_latency_ms = r.total_latency_ms;
    })

  reconstruct_found : Option AssessmentRecord → Result (Option ReconstructedAssessment)
  unfolding reconstructed
  reconstruct_found none = ok none
  reconstruct_found (some r) = do whole ← reconstructed r; ok (some whole)

  summary_of : AssessmentRecord → Result AssessmentSummary
  unfolding facts_validate_json
  summary_of r = do
    facts ← facts_validate_json r.facts_json
    flags ← codec.loads r.review_flags_json
    ok (record {
      assessment_id = r.id;
      created_at = r.created_at;
      as_of = r.as_of;
      system_description = facts.system_description;
      requires_human_review = not (is_empty flags);
      error = r.error;
      ai_system_id = r.ai_system_id;
      created_by_user_id = r.created_by_user_id;
    })

  module _ (engine : Engine) (info : SessionInfo) where
    -- `session.get(AssessmentRecord, assessment_id)`, as a select by the primary key in a session that does
    -- not hold the record yet
    unfoldable pub reconstruct_assessment :
        (assessment_id : String) → List AssessmentRecord → Result (Option ReconstructedAssessment)
    unfolding reconstruct_found
    reconstruct_assessment assessment_id table = do
      found ← select_where engine assessment_records info (λ r. str_eq r.id assessment_id) table
      reconstruct_found (first found)

    -- `.where(AssessmentRecord.ai_system_id == ai_system_id)`, where an id is given
    abbrev pub of_system : Option String → AssessmentRecord → Bool
    of_system none r = true
    of_system (some id) r = elim r.ai_system_id [ none ↦ false | some other ↦ str_eq other id ]

    -- The WHERE clause is applied before the order and the limit, although it is written last.
    unfoldable pub list_recent_assessments :
        (limit : ℕ) (ai_system_id : Option String)
        → List AssessmentRecord
        → Result (List AssessmentSummary)
    unfolding summary_of traverse
    list_recent_assessments limit ai_system_id table = do
      found ← select_where engine assessment_records info (of_system ai_system_id) table
      traverse summary_of (
          take limit
            (engine.order_by AssessmentRecord (λ a b. ltb b.created_at a.created_at) found))
