-- ===== src/Persistence/Tenancy.antt =====
-- src/persistence/tenancy.py: the tenant bound to a session, the filter on reads and the check of
-- writes. `session.info` is the state; a missing key is `none`. What SQLAlchemy knows of a
-- statement (its tables, its mappers, what kind of load it is) is given with the statement.
pub mod Reads
pub mod Writes
pub mod Contexts
use eu_ai_act_compliance.Prelude.{
  String, Bool, true, false, not, ◌&&◌, ◌||◌, List, [], ◌∷◌, Option, none, some, any, all, ◌++◌,
  contains, str_eq, if◌then◌else◌,
}
use eu_ai_act_compliance.Result.{Exception, Result, ok, err, ◌>>=◌, ◌>>◌}
use eu_ai_act_compliance.Exec.{Exec}
use eu_ai_act_compliance.Persistence.Models.{AiSystem, Incident, AssessmentRecord}
use eu_ai_act_compliance.Persistence.Engine.{Engine}

-- `session.info`
pub record SessionInfo : Type 0 where
  pub tenant_id : Option String
  pub cross_tenant : Option Bool

unfoldable pub bind_tenant : String → SessionInfo → SessionInfo
bind_tenant tenant_id info = record info { tenant_id = some tenant_id }

unfoldable pub bound_tenant_id : SessionInfo → Option String
bound_tenant_id info = info.tenant_id

unfoldable pub is_cross_tenant : SessionInfo → Bool
is_cross_tenant info = elim info.cross_tenant [ none ↦ false | some b ↦ b ]

-- The two context managers around a body, which may change the session and the rest of the state,
-- and may raise. What `finally` does is done in either case.
module _ {S A : Type 0} where
  unfoldable pub tenant_context : String → Exec (SessionInfo × S) A → Exec (SessionInfo × S) A
  unfolding bind_tenant
  tenant_context tenant_id body (info, s) =
      let (r, (after, s')) = body (bind_tenant tenant_id info, s) in
      (r, (record after { tenant_id = info.tenant_id }, s'))

  unfoldable pub cross_tenant_context : Exec (SessionInfo × S) A → Exec (SessionInfo × S) A
  unfolding is_cross_tenant
  cross_tenant_context body (info, s) =
      let (r, (after, s')) = body (record info { cross_tenant = some true }, s) in
      (r, (record after { cross_tenant = some (is_cross_tenant info) }, s'))

-- The tables of the classes that inherit `TenantScoped` in models.py.
unfoldable pub tenant_scoped_tablenames : List String
tenant_scoped_tablenames = "ai_systems" ∷ "incidents" ∷ "assessment_records" ∷ []

-- A class that is mapped to a table. `owner` is the column of `TenantScoped`, where the class has it.
pub record Mapper (A : Type 0) : Type 0 where
  pub tablename : String
  pub is_tenant_scoped : Bool
  pub owner : A → Option String

-- The state that the listener is given: `tables` are those named anywhere in the statement, and
-- `mappers` tells for each entity of the columns clause whether its class is tenant scoped.
-- `criteria` are the tenants that `with_loader_criteria` asks the owner to be.
pub record ExecuteState : Type 0 where
  pub is_select : Bool
  pub is_column_load : Bool
  pub is_relationship_load : Bool
  pub tables : List String
  pub mappers : List Bool
  pub criteria : List String

-- `_tables_in(statement) & _tenant_scoped_tablenames()`
unfoldable pub touches_tenant_table : ExecuteState → Bool
unfolding tenant_scoped_tablenames
touches_tenant_table state = any (λ name. contains name tenant_scoped_tablenames) state.tables

with_criteria : Option String → ExecuteState → Result ExecuteState
with_criteria none state = err Exception.tenant_context_error
with_criteria (some tenant_id) state = ok (record state { criteria = tenant_id ∷ state.criteria })

-- `_apply_tenant_filter`
unfoldable pub apply_tenant_filter : SessionInfo → ExecuteState → Result ExecuteState
unfolding is_cross_tenant touches_tenant_table with_criteria bound_tenant_id
apply_tenant_filter info state =
    if not state.is_select || state.is_column_load || state.is_relationship_load
    then ok state
    else if is_cross_tenant info
    then ok state
    else if not (touches_tenant_table state)
    then ok state
    else if not (any (λ b. b) state.mappers)
    then err Exception.tenant_context_error
    else with_criteria (bound_tenant_id info) state

unfoldable pub owned_by : String → Option String → Bool
owned_by tenant_id none = false
owned_by tenant_id (some owner) = str_eq owner tenant_id

-- The objects of a session. `shared` is one whose class does not inherit `TenantScoped`.
pub data OrmObject : Type 0 where
  ai_system : AiSystem → OrmObject
  incident : Incident → OrmObject
  assessment_record : AssessmentRecord → OrmObject
  shared : (class_name : String) → OrmObject

-- `isinstance(obj, TenantScoped)`
unfoldable pub is_tenant_scoped : OrmObject → Bool
is_tenant_scoped (shared class_name) = false
is_tenant_scoped obj = true

-- `getattr(obj, "tenant_id", None)`
unfoldable pub tenant_id_of : OrmObject → Option String
tenant_id_of (ai_system a) = a.tenant_id
tenant_id_of (incident i) = i.tenant_id
tenant_id_of (assessment_record r) = r.tenant_id
tenant_id_of (shared class_name) = none

-- `obj.tenant_id = tenant_id`
unfoldable pub set_tenant_id : String → OrmObject → OrmObject
set_tenant_id t (ai_system a) = ai_system (record a { tenant_id = some t })
set_tenant_id t (incident i) = incident (record i { tenant_id = some t })
set_tenant_id t (assessment_record r) = assessment_record (record r { tenant_id = some t })
set_tenant_id t (shared class_name) = shared class_name

-- A scoped object that already carries a tenant, or none.
stamp_scoped : (tenant_id : String) → Option String → OrmObject → Result OrmObject
unfolding set_tenant_id
stamp_scoped tenant_id none obj = ok (set_tenant_id tenant_id obj)
stamp_scoped tenant_id (some owner) obj =
    if str_eq owner tenant_id then ok obj else err Exception.cross_tenant_write_error

-- The body of the first loop, for one object of `session.new`
unfoldable pub stamp : Option String → OrmObject → Result OrmObject
unfolding is_tenant_scoped tenant_id_of stamp_scoped
stamp none obj = if is_tenant_scoped obj then err Exception.tenant_context_error else ok obj
stamp (some tenant_id) obj =
    if is_tenant_scoped obj then stamp_scoped tenant_id (tenant_id_of obj) obj else ok obj

-- What the loop does next: a raise leaves the objects that follow as they are.
stamp_rest :
    Result OrmObject
    → OrmObject
    → List OrmObject
    → Result (Unit {0}) × List OrmObject
    → Result (Unit {0}) × List OrmObject
stamp_rest (ok stamped) obj rest (r, stamped_rest) = (r, stamped ∷ stamped_rest)
stamp_rest (err e) obj rest unreached = (err e, obj ∷ rest)

-- `for obj in session.new`, with the objects as the loop leaves them
unfoldable pub stamp_new : Option String → List OrmObject → Result (Unit {0}) × List OrmObject
unfolding stamp_rest
stamp_new tenant_id [] = (ok tt, [])
stamp_new tenant_id (obj ∷ rest) =
    stamp_rest (stamp tenant_id obj) obj rest (stamp_new tenant_id rest)

-- The body of the second loop, for one object of `session.dirty` or `session.deleted`
unfoldable pub verify : Option String → OrmObject → Result (Unit {0})
unfolding is_tenant_scoped tenant_id_of owned_by
verify none obj = if is_tenant_scoped obj then err Exception.tenant_context_error else ok tt
verify (some tenant_id) obj =
    if is_tenant_scoped obj && not (owned_by tenant_id (tenant_id_of obj))
    then err Exception.cross_tenant_write_error
    else ok tt

unfoldable pub verify_all : Option String → List OrmObject → Result (Unit {0})
verify_all tenant_id [] = ok tt
verify_all tenant_id (obj ∷ rest) = verify tenant_id obj >> verify_all tenant_id rest

-- `_stamp_and_verify_writes`, with the new objects as the handler leaves them
unfoldable pub stamp_and_verify_writes :
    SessionInfo → (new dirty deleted : List OrmObject) → Result (Unit {0}) × List OrmObject
unfolding is_cross_tenant bound_tenant_id
stamp_and_verify_writes info new dirty deleted =
    if is_cross_tenant info
    then (ok tt, new)
    else let (r, stamped) = stamp_new (bound_tenant_id info) new in
      (r >> verify_all (bound_tenant_id info) (dirty ++ deleted), stamped)

-- The rows of one class that a select gives once the listener has seen it: the criteria are ANDed
-- to the statement's own test where the class is tenant scoped.
module _ (engine : Engine) {A : Type 0} (mapper : Mapper A) where
  unfoldable pub meets_criteria : ExecuteState → A → Bool
  unfolding owned_by
  meets_criteria state row =
      if mapper.is_tenant_scoped
      then all (λ tenant_id. owned_by tenant_id (mapper.owner row)) state.criteria
      else true

  -- `session.scalars(select(A).where(test))`
  unfoldable pub select_where : SessionInfo → (A → Bool) → List A → Result (List A)
  unfolding apply_tenant_filter meets_criteria
  select_where info test table = do
    state ← apply_tenant_filter info (record {
      is_select = true;
      is_column_load = false;
      is_relationship_load = false;
      tables = mapper.tablename ∷ [];
      mappers = mapper.is_tenant_scoped ∷ [];
      criteria = [];
    })
    ok (engine.rows A (λ row. test row && meets_criteria state row) table)
