-- ===== src/Api/Routes/Report.antt =====
-- src/api/routers/assessment.py: generate_report, from the form to the recorded assessment and its page.
-- The ids and times of new rows and the text of an exception are given; the clocks of the instrumented
-- client are read off the state of the model's backend.
pub mod Kept
use eu_ai_act_compliance.Prelude.{
  ℕ, String, List, [], ◌∷◌, ◌++◌, Option, none, some, is_nonempty, ◌+s◌, if◌then◌else◌,
}
use eu_ai_act_compliance.Result.{Exception, Result, ok, err, ◌>>=◌ as and_then}
use eu_ai_act_compliance.Exec.{Exec, lift, pure, continue, ◌>>=◌}
use eu_ai_act_compliance.Calendar.{Date, DateTime}
use eu_ai_act_compliance.Rendering.{Rendering}
use eu_ai_act_compliance.Llm.{LlmClient}
use eu_ai_act_compliance.Persistence.Engine.{Engine}
use eu_ai_act_compliance.Persistence.Models.{User, AiSystem, AssessmentRecord}
use eu_ai_act_compliance.Persistence.Tenancy.{SessionInfo}
use eu_ai_act_compliance.Schemas.Evidence.{EvidenceAssessment}
use eu_ai_act_compliance.Legal.Store.{LegalStore}
use eu_ai_act_compliance.Obligations.{Obligation, map_obligations}
use eu_ai_act_compliance.Evidence.{assess_all_obligations}
use eu_ai_act_compliance.Evidence.FileIngestion.{Parsers}
use eu_ai_act_compliance.Gaps.{Gap, compute_gaps}
use eu_ai_act_compliance.Review.{ReviewFlag, determine_review_flags}
use eu_ai_act_compliance.Systems.{get_or_create_ai_system}
use eu_ai_act_compliance.Observability.Instrumentation.{LlmCallRecord, instrumented}
use eu_ai_act_compliance.Observability.AssessmentLog.{Codec, Assessment, record_assessment}
use eu_ai_act_compliance.Api.Routes.Forms.{
  Form, Fields, Texts, fields_of, ai_system_name_of, pasted_texts, uploaded_texts,
}
use eu_ai_act_compliance.Api.Routes.Pages.{ReportPage, report_page}

abbrev pub legal_knowledge_source_key : String
legal_knowledge_source_key = "eu_ai_act_2024_1689"

-- What the route calls, and the tables that it only reads.
pub record Services (S : Type 0) : Type 1 where
  pub engine : Engine
  pub info : SessionInfo
  pub store : LegalStore
  pub users : List User
  pub client : LlmClient S
  pub timestamp : S → DateTime
  pub latency : S → S → ℕ
  pub rendering : Rendering
  pub decode : String → Result EvidenceAssessment
  pub codec : Codec
  pub parsers : Parsers
  pub date_fromisoformat : String → Result Date
  -- `str(exc)`, and that of an uploaded file
  pub exception_str : Exception → String
  pub upload_str : String
  -- the id of a new system and of a new assessment, and the time of both
  pub ai_system_id : String
  pub assessment_id : String
  pub now : DateTime

-- The tables that are written, and the state of the backend.
pub record World (S : Type 0) : Type 0 where
  pub llm : S
  pub ai_systems : List AiSystem
  pub assessments : List AssessmentRecord

-- What is known of a request before its evidence is assessed.
pub record Given : Type 0 where
  pub fields : Fields
  pub ai_system_id : Option String
  pub obligations : List Obligation
  pub evidence_by_key : Texts
  pub file_errors : List String

module _ {S : Type 0} (services : Services S) where
  -- `get_or_create_ai_system(session, ai_system_name).id if ai_system_name else None`
  ai_system_of : (ai_system_name : String) → Exec (World S) (Option String)
  ai_system_of ai_system_name w =
      if is_nonempty ai_system_name
      then (let (r, table) =
            get_or_create_ai_system services.engine services.info services.ai_system_id services.now
              ai_system_name w.ai_systems in
          (and_then r (λ s. ok (some s.id)), record w { ai_systems = table }))
      else (ok none, w)

  gather : Form → Fields → Option String → Result Given
  gather form fields ai_system_id =
      and_then (map_obligations services.engine services.store fields.classification)
        (λ obligations.
          and_then (uploaded_texts services.parsers form (pasted_texts form [], []))
            (λ (evidence_by_key, file_errors). ok (record {
              fields = fields;
              ai_system_id = ai_system_id;
              obligations = obligations;
              evidence_by_key = evidence_by_key;
              file_errors = file_errors;
            })))

  -- From the form to the evidence.
  unfoldable pub prepare : Form → Exec (World S) Given
  unfolding ai_system_of gather
  prepare form = do
    fields ← lift (fields_of services.codec services.date_fromisoformat form)
    ai_system_id ← ai_system_of (ai_system_name_of services.upload_str form)
    lift (gather form fields ai_system_id)

  -- The body of the `try`, whose other calls cannot raise, on a fresh instrumented client.
  unfoldable pub assess_given :
      Given → S → Result (List EvidenceAssessment) × (S × List LlmCallRecord)
  assess_given given s =
      assess_all_obligations (instrumented services.timestamp services.latency services.client)
        services.rendering services.decode given.obligations given.evidence_by_key (s, [])

  -- The arguments of `record_assessment`.
  made :
      Given
      → User
      → List EvidenceAssessment
      → List Gap
      → List ReviewFlag
      → List LlmCallRecord
      → (error : Option String) → Assessment
  made given current_user evidence_assessments gaps review_flags call_records error = record {
    as_of = given.fields.as_of;
    legal_knowledge_source_key = legal_knowledge_source_key;
    facts = given.fields.facts;
    classification = given.fields.classification;
    obligations = given.obligations;
    evidence_assessments = evidence_assessments;
    gaps = gaps;
    review_flags = review_flags;
    llm_calls = given.fields.classification_llm_calls ++ call_records;
    error = error;
    ai_system_id = given.ai_system_id;
    created_by_user_id = some current_user.id;
  }

  -- What is recorded, by the outcome of the `try`.
  unfoldable pub outcome_of :
      Given → User → Result (List EvidenceAssessment) → List LlmCallRecord → Assessment
  unfolding made
  outcome_of given current_user (ok evidence_assessments) call_records =
      made given current_user evidence_assessments
        (compute_gaps given.obligations evidence_assessments)
        (determine_review_flags services.rendering given.fields.classification evidence_assessments)
        call_records none
  outcome_of given current_user (err e) call_records =
      made given current_user [] [] [] call_records (
        some (
          "Something went wrong while assessing evidence. Technical detail: "
          +s services.exception_str e))

  -- `raise` in the `except` block, or the page.
  unfoldable pub reply :
      Given
      → Assessment
      → Result (List EvidenceAssessment)
      → (assessment_id : String) → Result ReportPage
  reply given a (err e) assessment_id = err e
  reply given a (ok evidence_assessments) assessment_id =
      report_page services.engine services.info services.store services.users assessment_id
        given.file_errors a

  unfoldable pub record_outcome :
      Given
      → User
      → Result (List EvidenceAssessment)
      → List LlmCallRecord
      → Exec (World S) ReportPage
  unfolding outcome_of reply
  record_outcome given current_user r call_records w =
      let a = outcome_of given current_user r call_records in
      let (recorded, table) =
        record_assessment services.codec services.info services.assessment_id services.now a
          w.assessments in
      (and_then recorded (reply given a r), record w { assessments = table })

  unfoldable pub report_on : Given → User → Exec (World S) ReportPage
  unfolding assess_given record_outcome
  report_on given current_user w =
      let (r, (s, call_records)) = assess_given given w.llm in
      record_outcome given current_user r call_records (record w { llm = s })

  unfoldable pub generate_report : Form → (current_user : User) → Exec (World S) ReportPage
  unfolding prepare report_on
  generate_report form current_user = do given ← prepare form; report_on given current_user
