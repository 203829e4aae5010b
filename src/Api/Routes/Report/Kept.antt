-- ===== src/Api/Routes/Report/Kept.antt =====
-- src/api/routers/assessment.py: what generate_report leaves in the log, and the page that is shown later.
use eu_ai_act_compliance.Prelude.{
  Option, ℕ, ◌+◌, String, false, List, [], ◌∷◌, ◌++◌, map, none, some, ◌≡◌, ◌≢◌, refl, ap, sym, ◌∙◌,
  arith, Mem, Bool-cases, inl, inr, is_nonempty, ◌+s◌,
}
use eu_ai_act_compliance.Result.{ok_injective, ◌>>=◌ as and_then, Result, ok, err, >>=-eq-ok}
use eu_ai_act_compliance.Exec.{continue_ind}
use eu_ai_act_compliance.Persistence.Models.{User, AssessmentRecord}
use eu_ai_act_compliance.Persistence.Tenancy.{is_cross_tenant, bound_tenant_id}
use eu_ai_act_compliance.Schemas.Evidence.{EvidenceAssessment}
use eu_ai_act_compliance.Observability.Instrumentation.{LlmCallRecord}
use eu_ai_act_compliance.Observability.Serialization.{llm_call_record_to_dict}
use eu_ai_act_compliance.Observability.AssessmentLog.{Assessment, sum_of, record_of}
use eu_ai_act_compliance.Observability.AssessmentLog.Stored.{
  ReadsBack, IsValid, owned, record_assessment-adds, reconstruct-own,
}
use eu_ai_act_compliance.Api.Routes.Forms.{Form, fields_of, ai_system_name_of}
use eu_ai_act_compliance.Api.Routes.Pages.{
  ReportPage, report_page, user_emails_for, show_past_assessment,
}
use eu_ai_act_compliance.Api.Routes.Report.{
  Services, World, Given, ai_system_of, prepare, assess_given, made, outcome_of, record_outcome,
  reply, report_on, generate_report,
}

sum_of-append :
    (f : LlmCallRecord → ℕ) (before calls : List LlmCallRecord)
    → sum_of f (before ++ calls) ≡ sum_of f before + sum_of f calls
unfolding sum_of
sum_of-append f [] calls = omega arith
sum_of-append f (c ∷ before) calls = let h = sum_of-append f before calls in omega arith

-- The notes on refused files are not stored.
abbrev pub without_notes : ReportPage → ReportPage
without_notes page = record page { file_errors = [] }

-- The error of a row, by the outcome of the assessment.
unfoldable pub error_of :
    {S : Type 0} → Services S → Result (List EvidenceAssessment) → Option String
error_of services (ok es) = none
error_of services (err e) = some (
    "Something went wrong while assessing evidence. Technical detail: " +s services.exception_str e)

module _ {S : Type 0} (services : Services S) (current_user : User) (form : Form) where
  ai_system_of-assessments :
      (name : String) (w : World S) → (ai_system_of services name w).1.assessments ≡ w.assessments
  unfolding ai_system_of
  ai_system_of-assessments name w = elim (Bool-cases (is_nonempty name)) [
    | inl q ↦ rw q refl
    | inr q ↦ rw q refl
  ]

  prepare-assessments : (w : World S) → (prepare services form w).1.assessments ≡ w.assessments
  unfolding prepare
  prepare-assessments w =
      continue_ind (λ (v : World S). v.assessments ≡ w.assessments)
        (fields_of services.codec services.date_fromisoformat form) _ w refl
        (λ fields.
          continue_ind (λ (v : World S). v.assessments ≡ w.assessments)
            (ai_system_of services (ai_system_name_of services.upload_str form) w).0 _ _
            (ai_system_of-assessments _ w) (λ id. ai_system_of-assessments _ w))

  -- The outcome of the assessment of the evidence, and the calls that it made.
  abbrev pub assessed : World S → Given → Result (List EvidenceAssessment)
  assessed w given = (assess_given services given (prepare services form w).1.llm).0

  abbrev pub calls_made : World S → Given → List LlmCallRecord
  calls_made w given = (assess_given services given (prepare services form w).1.llm).1.1

  -- What the log is given.
  abbrev pub logged : World S → Given → Assessment
  logged w given = outcome_of services given current_user (assessed w given) (calls_made w given)

  outcome_of-calls :
      (given : Given) (r : Result (List EvidenceAssessment)) (calls : List LlmCallRecord)
      → (outcome_of services given current_user r calls).llm_calls
        ≡ given.fields.classification_llm_calls ++ calls
  unfolding outcome_of made
  outcome_of-calls given (ok es) calls = refl
  outcome_of-calls given (err e) calls = refl

  outcome_of-user :
      (given : Given) (r : Result (List EvidenceAssessment)) (calls : List LlmCallRecord)
      → (outcome_of services given current_user r calls).created_by_user_id ≡ some current_user.id
  unfolding outcome_of made
  outcome_of-user given (ok es) calls = refl
  outcome_of-user given (err e) calls = refl

  outcome_of-error :
      (given : Given) (r : Result (List EvidenceAssessment)) (calls : List LlmCallRecord)
      → (outcome_of services given current_user r calls).error ≡ error_of services r
  unfolding outcome_of made error_of
  outcome_of-error given (ok es) calls = refl
  outcome_of-error given (err e) calls = refl

  reply-and_then :
      (given : Given) (a : Assessment) (r : Result (List EvidenceAssessment))
      → reply services given a r services.assessment_id
        ≡ and_then r (λ es.
          report_page services.engine services.info services.store services.users
            services.assessment_id given.file_errors a)
  unfolding reply
  reply-and_then given a (ok es) = refl
  reply-and_then given a (err e) = refl

  module _ {t : String} (guarded : is_cross_tenant services.info ≡ false)
      (bound : bound_tenant_id services.info ≡ some t) (w : World S) (given : Given)
      (read : (prepare services form w).0 ≡ ok given) where
    abbrev pub row : AssessmentRecord
    row = owned services.codec services.assessment_id services.now (logged w given) t

    pub generate_report-adds : generate_report services form current_user w ≡ (
      reply services given (logged w given) (assessed w given) services.assessment_id,
      record (prepare services form w).1 {
        llm = (assess_given services given (prepare services form w).1.llm).1.0;
        assessments = w.assessments ++ (row ∷ []);
      },
    )
    unfolding generate_report report_on record_outcome
    generate_report-adds =
        rw
          (
            read,
            prepare-assessments w,
            record_assessment-adds services.codec services.assessment_id services.now
                (logged w given) services.info guarded bound w.assessments,
          )
          refl

    -- What a request leaves in the log when its form could be read.
    pub record IsRecorded (before after : List AssessmentRecord) : Type 0 where
      pub entry : AssessmentRecord
      pub added : after ≡ before ++ (entry ∷ [])
      pub of_tenant : entry.tenant_id ≡ some t
      pub by_user : entry.created_by_user_id ≡ some current_user.id
      pub calls :
          entry.llm_calls_json
          ≡ services.codec.dumps (
              map
                (llm_call_record_to_dict services.codec.iso)
                (given.fields.classification_llm_calls ++ calls_made w given))
      pub input_tokens :
          entry.total_input_tokens
          ≡ sum_of (λ c. c.input_tokens) given.fields.classification_llm_calls
            + sum_of (λ c. c.input_tokens) (calls_made w given)
      pub output_tokens :
          entry.total_output_tokens
          ≡ sum_of (λ c. c.output_tokens) given.fields.classification_llm_calls
            + sum_of (λ c. c.output_tokens) (calls_made w given)
      pub error : entry.error ≡ error_of services (assessed w given)

    row-IsRecorded : IsRecorded w.assessments (w.assessments ++ (row ∷ []))
    unfolding record_of outcome_of made
    row-IsRecorded =
        let calls = outcome_of-calls given (assessed w given) (calls_made w given) in
        let before = given.fields.classification_llm_calls in
        record {
          entry = row;
          added = refl;
          of_tenant = refl;
          by_user = outcome_of-user given (assessed w given) (calls_made w given);
          calls = rw calls refl;
          input_tokens = rw calls (sum_of-append (λ c. c.input_tokens) before (calls_made w given));
          output_tokens =
              rw calls (sum_of-append (λ c. c.output_tokens) before (calls_made w given));
          error = outcome_of-error given (assessed w given) (calls_made w given);
        }

    -- On a session that is bound to a tenant, a request whose form could be read adds one row to the log,
    -- whether the assessment of the evidence succeeded or raised: it is the tenant's, names the user, holds
    -- the calls of the classification and then those of this request with the sums of both's tokens, and
    -- has no error or the text of the exception. The request ends in the page of the logged assessment, or
    -- in the exception that the assessment raised.
    pub generate_report-IsRecorded :
        IsRecorded w.assessments (generate_report services form current_user w).1.assessments
        × ((generate_report services form current_user w).0
            ≡ and_then (assessed w given) (λ es.
              report_page services.engine services.info services.store services.users
                services.assessment_id given.file_errors
                (logged w given)))
    generate_report-IsRecorded =
        rw generate_report-adds (row-IsRecorded, reply-and_then given _ (assessed w given))

    report_page-again :
        (a : Assessment) (id : String) (file_errors : List String) {page : ReportPage}
        → report_page services.engine services.info services.store services.users id file_errors a
          ≡ ok page
        → (page.assessment_id ≡ id)
          × (report_page services.engine services.info services.store services.users id [] a
              ≡ ok (without_notes page))
    unfolding report_page
    report_page-again a id file_errors h =
        let emails =
          user_emails_for services.engine services.info services.store services.users
            (a.created_by_user_id ∷ []) in
        let (found, q, e) = >>=-eq-ok emails _ h in
        let shown = ok_injective e in
        (sym (ap (λ p. p.assessment_id) shown), rw q (ap (λ p. ok (without_notes p)) shown))

    reply-page :
        (a : Assessment) (r : Result (List EvidenceAssessment)) {page : ReportPage}
        → reply services given a r services.assessment_id ≡ ok page
        → report_page services.engine services.info services.store services.users
            services.assessment_id given.file_errors a
          ≡ ok page
    unfolding reply
    reply-page a (ok es) h = h
    reply-page a (err e) h = cc

    -- On a session that is bound to a tenant, the page that a request ends in is shown again from the log
    -- under its id, without the notes on files: the same report, with the same texts of the law,
    -- crosswalks and names. The id of the assessment is one that no row has, its parts are valid, and the
    -- parsers read what the printers write of it.
    pub show_past_assessment-generate_report :
        {page : ReportPage}
        → (generate_report services form current_user w).0 ≡ ok page
        → ((r : AssessmentRecord) → Mem r w.assessments → r.id ≢ services.assessment_id)
        → ReadsBack services.codec (logged w given)
        → IsValid (logged w given)
        → show_past_assessment services.engine services.info services.store services.users
            services.codec page.assessment_id
            (generate_report services form current_user w).1.assessments
          ≡ ok (without_notes page)
    unfolding show_past_assessment
    show_past_assessment-generate_report h unused back valid =
        let a = logged w given in
        let (named, again) =
          report_page-again a services.assessment_id given.file_errors
            (reply-page a (assessed w given) (sym (ap (λ p. p.0) generate_report-adds) ∙ h)) in
        let stored =
          reconstruct-own services.codec services.assessment_id services.now a services.info guarded
            bound w.assessments services.engine unused back valid in
        rw (generate_report-adds, named, stored) (rw named at again)
