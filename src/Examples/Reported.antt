-- ===== src/Examples/Reported.antt =====
-- A request for a report on a prohibited practice, with one pasted text.
use mathlib.Core.List.{not-mem-nil}
use eu_ai_act_compliance.Prelude.{
  false, List, [], ◌∷◌, none, some, ◌≡◌, refl, ap, ◌∙◌, strip, contains,
}
use eu_ai_act_compliance.Result.{ok, traverse, ◌>>=◌ as and_then}
use eu_ai_act_compliance.Rendering.{plain}
use eu_ai_act_compliance.Llm.{client}
use eu_ai_act_compliance.Llm.Fake.{FakeState, fake, programmed}
use eu_ai_act_compliance.Persistence.Engine.{in_table_order}
use eu_ai_act_compliance.Persistence.Tenancy.{
  SessionInfo, is_cross_tenant, bound_tenant_id, select_where,
}
use eu_ai_act_compliance.Schemas.Classification
use eu_ai_act_compliance.Schemas.Classification.{validate_result, for_category}
use eu_ai_act_compliance.Schemas.Evidence.{
  validate, assessment_fields, dimensions_cover_all_seven_exactly_once,
  compliant_status_requires_all_dimensions_met,
}
use eu_ai_act_compliance.Schemas.Facts
use eu_ai_act_compliance.Obligations.{map_obligations, cease_obligation}
use eu_ai_act_compliance.Evidence.{assess_all_obligations, assess_evidence, answered}
use eu_ai_act_compliance.Review.{determine_review_flags, classification_flags, certainty_flags}
use eu_ai_act_compliance.Schemas.Floats.{lt, three_fifths}
use eu_ai_act_compliance.Gaps.{compute_gaps}
use eu_ai_act_compliance.Reporting.{build_report}
use eu_ai_act_compliance.Auth.Users.{users, get_user}
use eu_ai_act_compliance.Observability.Instrumentation.{
  LlmCallRecord, instrumented, generate_recorded,
}
use eu_ai_act_compliance.Observability.Serialization.{
  obligation_to_dict, review_flag_to_dict, llm_call_record_to_dict, llm_call_record_from_dict,
}
use eu_ai_act_compliance.Observability.AssessmentLog.{
  Assessment, facts_validate_json, classification_validate_json, list_from_json,
}
use eu_ai_act_compliance.Observability.AssessmentLog.Stored.{ReadsBack, IsValid}
use eu_ai_act_compliance.Api.Routes.Forms.{
  Form, entry, Texts, fields_of, ai_system_name_of, uploaded_texts, pasted_texts,
}
use eu_ai_act_compliance.Api.Routes.Pages.{
  ReportPage, user_emails_for, citation_texts_for, crosswalks_for, report_page,
  show_past_assessment,
}
use eu_ai_act_compliance.Api.Routes.Report.{
  Services, World, Given, prepare, assess_given, reply, outcome_of, generate_report,
}
use eu_ai_act_compliance.Api.Routes.Report.Kept.{
  IsRecorded, generate_report-adds, assessed, calls_made, logged, without_notes,
  generate_report-IsRecorded, show_past_assessment-generate_report,
}
use eu_ai_act_compliance.Examples.{facts, in_2025, law, classified}
use eu_ai_act_compliance.Examples.Access.{ada}
use eu_ai_act_compliance.Examples.Findings.{cease, ceased}
use eu_ai_act_compliance.Examples.Limits.{parsers}
use eu_ai_act_compliance.Examples.Recorded.{reader, call, count, strokes}

abbrev acme : SessionInfo
acme = record { tenant_id = some "acme"; cross_tenant = none }

acme-guarded : is_cross_tenant acme ≡ false
unfolding is_cross_tenant
acme-guarded = refl

acme-bound : bound_tenant_id acme ≡ some "acme"
unfolding bound_tenant_id
acme-bound = refl

abbrev form : Form
form =
    ("facts_json", entry "facts")
    ∷ ("classification_json", entry "classification")
    ∷ ("as_of", entry "2025-02-02")
    ∷ ("classification_llm_calls_json", entry "first")
    ∷ ("evidence__EU-AI-ACT-CEASE-PROHIBITED-PRACTICE", entry "Shut down.")
    ∷ []

abbrev evidence_by_key : Texts
evidence_by_key = ("EU-AI-ACT-CEASE-PROHIBITED-PRACTICE", "Shut down.") ∷ []

abbrev given : Given
given = record {
  fields = record {
    facts = facts;
    classification = classified;
    as_of = in_2025;
    classification_llm_calls = call ∷ [];
  };
  ai_system_id = none;
  obligations = cease ∷ [];
  evidence_by_key = evidence_by_key;
  file_errors = [];
}

-- What the form holds, and the parts of the assessment with it.
abbrev parts : List LlmCallRecord → Assessment
parts calls = record {
  as_of = in_2025;
  legal_knowledge_source_key = "eu_ai_act_2024_1689";
  facts = facts;
  classification = classified;
  obligations = cease ∷ [];
  evidence_assessments = ceased ∷ [];
  gaps = [];
  review_flags = determine_review_flags plain classified (ceased ∷ []);
  llm_calls = calls;
  error = none;
  ai_system_id = none;
  created_by_user_id = some "u1";
}

abbrev services : List LlmCallRecord → Services FakeState
services calls = record {
  engine = in_table_order;
  info = acme;
  store = law;
  users = ada ∷ [];
  client = client fake "m";
  timestamp = λ s. 3;
  latency = λ s s'. 1;
  rendering = plain;
  decode = λ raw. ok ceased;
  codec = reader (parts calls);
  parsers = parsers;
  date_fromisoformat = λ s. ok in_2025;
  exception_str = λ e. "";
  upload_str = "UploadFile";
  ai_system_id = "s1";
  assessment_id = "a1";
  now = 7;
}

abbrev before : World FakeState
before = record { llm = programmed ("x" ∷ []); ai_systems = []; assessments = [] }

-- The call that the assessment of the evidence makes.
abbrev new_calls : List LlmCallRecord
new_calls =
    (assess_all_obligations (instrumented (λ s. 3) (λ s s'. 1) (client fake "m")) plain
      (λ raw. ok ceased) (cease ∷ []) evidence_by_key (programmed ("x" ∷ []), [])).1.1

abbrev served : Services FakeState
served = services (call ∷ new_calls)

prepared : prepare served form before ≡ (ok given, before)
unfolding prepare fields_of facts_validate_json Facts.validate classification_validate_json
    validate_result Classification.validate Classification.classification_fields
    Classification.require_citation_for_affirmative_states list_from_json llm_call_record_from_dict
    llm_call_record_to_dict ai_system_name_of strip map_obligations for_category uploaded_texts
    pasted_texts count strokes cease_obligation
prepared = refl

given-read : (prepare served form before).0 ≡ ok given
given-read = ap (λ p. p.0) prepared

generate_report-IsRecorded_example :
    IsRecorded served ada form acme-guarded acme-bound before given given-read []
      (generate_report served form ada before).1.assessments
    × ((generate_report served form ada before).0
        ≡ and_then (assessed served ada form before given) (λ es.
          report_page in_table_order acme law
            (ada ∷ [])
            "a1"
            []
            (logged served ada form before given)))
generate_report-IsRecorded_example =
    generate_report-IsRecorded served ada form acme-guarded acme-bound before given given-read

-- The page that the request ends in.
abbrev page : ReportPage
page = record {
  report =
      build_report facts in_2025 classified (cease ∷ []) (ceased ∷ []) []
        (determine_review_flags plain classified (ceased ∷ []));
  assessment_id = "a1";
  file_errors = [];
  citation_texts = citation_texts_for in_table_order acme law (ada ∷ []) classified;
  crosswalks = crosswalks_for in_table_order acme law (ada ∷ []) (cease ∷ []);
  created_by_user_id = some "u1";
  user_emails = ("u1", "ada@acme.eu") ∷ [];
}

run-ceased : (assess_given served given before.llm).0 ≡ ok (ceased ∷ [])
unfolding assess_given assess_all_obligations assess_evidence answered client fake instrumented
    validate assessment_fields dimensions_cover_all_seven_exactly_once
    compliant_status_requires_all_dimensions_met cease_obligation generate_recorded
run-ceased = refl

run-calls : (assess_given served given before.llm).1.1 ≡ new_calls
unfolding assess_given
run-calls = refl

assessed-ceased : assessed served ada form before given ≡ ok (ceased ∷ [])
assessed-ceased = ap (λ v. (assess_given served given v.1.llm).0) prepared ∙ run-ceased

made-calls : calls_made served ada form before given ≡ new_calls
made-calls = ap (λ v. (assess_given served given v.1.llm).1.1) prepared ∙ run-calls

outcome-parts : outcome_of served given ada (ok (ceased ∷ [])) new_calls ≡ parts (call ∷ new_calls)
unfolding outcome_of compute_gaps cease_obligation
outcome-parts = refl

logged-parts : logged served ada form before given ≡ parts (call ∷ new_calls)
logged-parts =
    ap (λ r. outcome_of served given ada r (calls_made served ada form before given))
      assessed-ceased
    ∙ ap (outcome_of served given ada (ok (ceased ∷ []))) made-calls
    ∙ outcome-parts

reply-page : reply served given (parts (call ∷ new_calls)) (ok (ceased ∷ [])) "a1" ≡ ok page
unfolding reply report_page user_emails_for get_user select_where contains users
reply-page = refl

page-shown : (generate_report served form ada before).0 ≡ ok page
page-shown =
    ap (λ p. p.0)
      (generate_report-adds served ada form acme-guarded acme-bound before given given-read)
    ∙ ap (λ a. reply served given a (assessed served ada form before given) "a1") logged-parts
    ∙ ap (λ r. reply served given (parts (call ∷ new_calls)) r "a1") assessed-ceased
    ∙ reply-page

parts-ReadsBack : ReadsBack served.codec (parts (call ∷ new_calls))
unfolding obligation_to_dict review_flag_to_dict llm_call_record_to_dict cease_obligation
    determine_review_flags classification_flags certainty_flags lt three_fifths
parts-ReadsBack = record {
  facts = refl;
  classification = refl;
  evidence = refl;
  obligations = refl;
  gaps = refl;
  review_flags = refl;
  llm_calls = refl;
}

parts-IsValid : IsValid (parts (call ∷ new_calls))
unfolding traverse Facts.validate validate_result Classification.validate
    Classification.classification_fields Classification.require_citation_for_affirmative_states
    validate assessment_fields dimensions_cover_all_seven_exactly_once
    compliant_status_requires_all_dimensions_met
parts-IsValid = record { facts = refl; classification = refl; evidence = refl }

show_past_assessment-generate_report_example :
    show_past_assessment in_table_order acme law
      (ada ∷ [])
      served.codec
      "a1"
      (generate_report served form ada before).1.assessments
    ≡ ok (without_notes page)
show_past_assessment-generate_report_example =
    show_past_assessment-generate_report served ada form acme-guarded acme-bound before given
      given-read page-shown (λ r m. absurd (not-mem-nil m)) (rw logged-parts parts-ReadsBack)
      (rw logged-parts parts-IsValid)
