-- ===== src/Systems.antt =====
-- src/systems/registry.py: the named systems that assessments attach to. The table is the state; the id
-- and the clock's reading of a new row are given.
pub mod Registered
use eu_ai_act_compliance.Prelude.{
  ℕ, String, Bool, true, false, List, [], ◌∷◌, ◌++◌, map, Option, none, some, str_eq, strip, first,
  ltb, length, if◌then◌else◌,
}
use eu_ai_act_compliance.Result.{Result, ok, err, ◌>>=◌}
use eu_ai_act_compliance.Calendar.{DateTime}
use eu_ai_act_compliance.Persistence.Engine.{Engine}
use eu_ai_act_compliance.Persistence.Models.{AiSystem, AssessmentRecord}
use eu_ai_act_compliance.Persistence.Tenancy.{
  SessionInfo, Mapper, OrmObject, ai_system, select_where, stamp_and_verify_writes,
}
use eu_ai_act_compliance.Observability.Retention.{assessment_records}
use eu_ai_act_compliance.Legal.Deadlines.{ai_systems}

pub record AiSystemSummary : Type 0 where
  pub id : String
  pub name : String
  pub description : Option String
  pub owner_note : Option String
  pub created_at : DateTime
  pub assessment_count : ℕ

module _ (engine : Engine) (info : SessionInfo) where
  -- The system among the objects that a flush leaves.
  flushed : AiSystem → List OrmObject → AiSystem
  flushed s [] = s
  flushed s (ai_system stamped ∷ rest) = stamped
  flushed s (_ ∷ rest) = flushed s rest

  insert_flushed :
      AiSystem
      → List AiSystem
      → Result (Unit {0}) × List OrmObject
      → Result AiSystem × List AiSystem
  unfolding flushed
  insert_flushed s table (ok u, stamped) =
      (ok (flushed s stamped), table ++ (flushed s stamped ∷ []))
  insert_flushed s table (err e, stamped) = (err e, table)

  create : AiSystem → List AiSystem → Result AiSystem × List AiSystem
  unfolding insert_flushed
  create s table = insert_flushed s table (stamp_and_verify_writes info (ai_system s ∷ []) [] [])

  named : String → List AiSystem → Result (List AiSystem)
  named name table = select_where engine ai_systems info (λ s. str_eq s.name name) table

  get_or_create_found :
      AiSystem → List AiSystem → Result (List AiSystem) → Result AiSystem × List AiSystem
  unfolding create
  get_or_create_found new table (ok []) = create new table
  get_or_create_found new table (ok (existing ∷ rest)) = (ok existing, table)
  get_or_create_found new table (err e) = (err e, table)

  unfoldable pub get_or_create_ai_system :
      (id : String) (now : DateTime) (name : String)
      → List AiSystem
      → Result AiSystem × List AiSystem
  unfolding get_or_create_found named
  get_or_create_ai_system id now name table =
      let new : AiSystem = record {
        id = id;
        tenant_id = none;
        name = strip name;
        description = none;
        owner_note = none;
        created_at = now;
      } in
      get_or_create_found new table (named (strip name) table)

  -- `session.get(AISystem, ai_system_id)`, as a select by the primary key
  unfoldable pub get_ai_system : String → List AiSystem → Result (Option AiSystem)
  get_ai_system ai_system_id table = do
    found ← select_where engine ai_systems info (λ s. str_eq s.id ai_system_id) table
    ok (first found)

  -- `select(func.count(AssessmentRecord.id)).where(...)`, which the filter can attach to
  unfoldable pub summaries :
      (records : List AssessmentRecord) → List AiSystem → Result (List AiSystemSummary)
  summaries records [] = ok []
  summaries records (s ∷ rest) = do
    counted ←
        select_where engine assessment_records info
          (λ r. elim r.ai_system_id [ none ↦ false | some id ↦ str_eq id s.id ]) records
    later ← summaries records rest
    ok (
        record {
          id = s.id;
          name = s.name;
          description = s.description;
          owner_note = s.owner_note;
          created_at = s.created_at;
          assessment_count = length counted;
        }
        ∷ later)

  unfoldable pub list_ai_systems :
      (records : List AssessmentRecord) → List AiSystem → Result (List AiSystemSummary)
  unfolding summaries
  list_ai_systems records table = do
    found ← select_where engine ai_systems info (λ s. true) table
    summaries records (engine.order_by AiSystem (λ a b. ltb b.created_at a.created_at) found)
