-- ===== src/Api/Routes/Pages.antt =====
-- src/api/routers/assessment.py: the page of a report, for a new and for a past assessment. A dictionary
-- is a list of its entries, in which a key may be repeated with the same value.
use eu_ai_act_compliance.Prelude.{String, List, [], ◌∷◌, map, Option, none, some}
use eu_ai_act_compliance.Result.{http_exception, Result, ok, err, ◌>>=◌}
use eu_ai_act_compliance.Persistence.Engine.{Engine}
use eu_ai_act_compliance.Persistence.Models.{User, AssessmentRecord}
use eu_ai_act_compliance.Persistence.Tenancy.{SessionInfo}
use eu_ai_act_compliance.Schemas.Classification.{
  CitedRequirement, CategoryClassification, ClassificationResult,
}
use eu_ai_act_compliance.Legal.Store.{LegalStore}
use eu_ai_act_compliance.Legal.Queries.{
  RequirementResult, CrosswalkResult, find_requirement_by_key, find_crosswalks_by_requirement_key,
}
use eu_ai_act_compliance.Obligations.{Obligation}
use eu_ai_act_compliance.Reporting.{ComplianceReport, build_report}
use eu_ai_act_compliance.Auth.Users.{get_user}
use eu_ai_act_compliance.Observability.AssessmentLog.{
  Codec, Assessment, ReconstructedAssessment, reconstruct_assessment,
}

-- The context of the template report.html.
pub record ReportPage : Type 0 where
  pub report : ComplianceReport
  pub assessment_id : String
  pub file_errors : List String
  pub citation_texts : List (String × String)
  pub crosswalks : List (String × List CrosswalkResult)
  pub created_by_user_id : Option String
  pub user_emails : List (String × String)

module _ (engine : Engine) (info : SessionInfo) (store : LegalStore) (users : List User) where
  cited_text : String → Option RequirementResult → List (String × String) → List (String × String)
  cited_text key none texts = texts
  cited_text key (some result) texts = (key, result.provision_text) ∷ texts

  texts_cited_by : List CitedRequirement → List (String × String) → List (String × String)
  unfolding cited_text
  texts_cited_by [] texts = texts
  texts_cited_by (c ∷ rest) texts =
      cited_text c.requirement_key (find_requirement_by_key engine store c.requirement_key)
        (texts_cited_by rest texts)

  citation_texts : List CategoryClassification → List (String × String)
  unfolding texts_cited_by
  citation_texts [] = []
  citation_texts (a ∷ rest) = texts_cited_by a.cited_requirements (citation_texts rest)

  -- `_citation_texts_for`
  unfoldable pub citation_texts_for : ClassificationResult → List (String × String)
  unfolding citation_texts
  citation_texts_for classification = citation_texts classification.assessments

  -- `_crosswalks_for`
  unfoldable pub crosswalks_for : List Obligation → List (String × List CrosswalkResult)
  crosswalks_for obligations =
      map
        (λ o.
          (o.requirement_key, find_crosswalks_by_requirement_key engine store o.requirement_key))
        obligations

  email_of : String → Option User → List (String × String) → List (String × String)
  email_of user_id none emails = emails
  email_of user_id (some user) emails = (user_id, user.email) ∷ emails

  -- `_user_emails_for`
  unfoldable pub user_emails_for : List (Option String) → Result (List (String × String))
  unfolding email_of
  user_emails_for [] = ok []
  user_emails_for (none ∷ rest) = user_emails_for rest
  user_emails_for (some user_id ∷ rest) = do
    found ← get_user engine info user_id users
    emails ← user_emails_for rest
    ok (email_of user_id found emails)

  -- The page of an assessment, which both routes end in.
  unfoldable pub report_page :
      (assessment_id : String) (file_errors : List String) → Assessment → Result ReportPage
  report_page assessment_id file_errors a = do
    user_emails ← user_emails_for (a.created_by_user_id ∷ [])
    ok (record {
      report =
          build_report a.facts a.as_of a.classification a.obligations a.evidence_assessments a.gaps
            a.review_flags;
      assessment_id = assessment_id;
      file_errors = file_errors;
      citation_texts = citation_texts_for a.classification;
      crosswalks = crosswalks_for a.obligations;
      created_by_user_id = a.created_by_user_id;
      user_emails = user_emails;
    })

  past_page : Option ReconstructedAssessment → Result ReportPage
  unfolding report_page
  past_page none = err (http_exception 404 "Assessment not found.")
  past_page (some reconstructed) =
      report_page reconstructed.assessment_id [] reconstructed.assessment

  unfoldable pub show_past_assessment :
      Codec → (assessment_id : String) → List AssessmentRecord → Result ReportPage
  unfolding past_page
  show_past_assessment codec assessment_id table = do
    reconstructed ← reconstruct_assessment codec engine info assessment_id table
    past_page reconstructed
