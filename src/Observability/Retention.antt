-- ===== src/Observability/Retention.antt =====
-- src/observability/retention.py: the deletion of assessments. The state is the session's info and the
-- table; a deletion commits at once or, where the flush raises, not at all.
pub mod Purged
use eu_ai_act_compliance.Prelude.{
  ℕ, ◌-◌, ◌*◌, String, Bool, true, false, not, List, [], ◌∷◌, map, any, filter, Option, none, some,
  ltb, length, str_eq, first, if◌then◌else◌,
}
use eu_ai_act_compliance.Result.{Result, ok, err, overflow_error}
use eu_ai_act_compliance.Exec.{Exec}
use eu_ai_act_compliance.Calendar.{DateTime, day_length}
use eu_ai_act_compliance.Persistence.Engine.{Engine}
use eu_ai_act_compliance.Persistence.Models.{AssessmentRecord}
use eu_ai_act_compliance.Persistence.Tenancy.{
  SessionInfo, Mapper, OrmObject, assessment_record, select_where, stamp_and_verify_writes,
  cross_tenant_context,
}

abbrev pub default_retention_days : ℕ
default_retention_days = 90

-- The class `AssessmentRecord`, as the tenant filter sees it.
unfoldable pub assessment_records : Mapper AssessmentRecord
assessment_records = record {
  tablename = "assessment_records";
  is_tenant_scoped = true;
  owner = λ r. r.tenant_id;
}

-- `r.id` is the id of one of the records
unfoldable pub is_among : List AssessmentRecord → AssessmentRecord → Bool
is_among records r = any (λ e. str_eq e.id r.id) records

-- `session.delete(record)` for each record, and `session.commit()`
delete_flushed :
    {A : Type 0}
    → A
    → SessionInfo
    → List AssessmentRecord
    → List AssessmentRecord
    → Result (Unit {0})
    → Result A × (SessionInfo × List AssessmentRecord)
unfolding is_among
delete_flushed value info records table (ok u) =
    (ok value, (info, filter (λ r. not (is_among records r)) table))
delete_flushed value info records table (err e) = (err e, (info, table))

unfoldable pub delete_all :
    {A : Type 0} → A → List AssessmentRecord → Exec (SessionInfo × List AssessmentRecord) A
unfolding delete_flushed
delete_all value records (info, table) =
    delete_flushed value info records table
      (stamp_and_verify_writes info [] [] (map assessment_record records)).0

module _ (engine : Engine) where
  purge_found : Result (List AssessmentRecord) → Exec (SessionInfo × List AssessmentRecord) ℕ
  unfolding delete_all
  purge_found (ok expired) s = delete_all (length expired) expired s
  purge_found (err e) s = (err e, s)

  -- The body of `with cross_tenant_context(session)`
  unfoldable pub purge_before : DateTime → Exec (SessionInfo × List AssessmentRecord) ℕ
  unfolding purge_found
  purge_before cutoff (info, table) =
      purge_found (select_where engine assessment_records info (λ r. ltb r.created_at cutoff) table)
        (info, table)

  -- The subtraction raises where it would go before the year 1.
  unfoldable pub purge_expired_assessments :
      (retention_days : ℕ) (as_of : DateTime) → Exec (SessionInfo × List AssessmentRecord) ℕ
  purge_expired_assessments retention_days as_of s =
      if ltb as_of (retention_days * day_length)
      then (err overflow_error, s)
      else cross_tenant_context (purge_before (as_of - retention_days * day_length)) s

  delete_found : Result (List AssessmentRecord) → Exec (SessionInfo × List AssessmentRecord) Bool
  unfolding delete_all
  delete_found (ok []) s = (ok false, s)
  delete_found (ok (record_ ∷ rest)) s = delete_all true (record_ ∷ []) s
  delete_found (err e) s = (err e, s)

  unfoldable pub delete_assessment :
      (assessment_id : String) → Exec (SessionInfo × List AssessmentRecord) Bool
  unfolding delete_found
  delete_assessment assessment_id (info, table) =
      delete_found
        (select_where engine assessment_records info (λ r. str_eq r.id assessment_id) table)
        (info, table)
