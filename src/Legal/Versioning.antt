-- ===== src/Legal/Versioning.antt =====
-- src/legal/versioning.py: a new version of a requirement beside the old one. The ids of the new
-- rows are drawn from `uuid`, one number for each row, and the clock's reading is `now`.
pub mod Supersession
use eu_ai_act_compliance.Prelude.{
  ℕ, zero, suc, ◌+◌, String, Bool, true, false, List, [], ◌∷◌, ◌++◌, map, Option, none, some,
  str_eq, is_some, length, if◌then◌else◌,
}
use eu_ai_act_compliance.Result.{value_error, Result, ok, err}
use eu_ai_act_compliance.Exec.{Exec, raise}
use eu_ai_act_compliance.Calendar.{DateTime}
use eu_ai_act_compliance.Persistence.Engine.{Engine}
use eu_ai_act_compliance.Persistence.Models.{Requirement, ApplicabilityCondition, LegalException}
use eu_ai_act_compliance.Legal.Store.{LegalStore}

-- `ApplicabilityCondition(requirement_id=new.id, ...)` for each condition of the old version
unfoldable pub copy_conditions :
    (uuid : ℕ → String)
    → ℕ
    → (new_id : String) → List ApplicabilityCondition
    → List ApplicabilityCondition
copy_conditions uuid n new_id [] = []
copy_conditions uuid n new_id (c ∷ rest) =
    record c { id = uuid n; requirement_id = new_id } ∷ copy_conditions uuid (suc n) new_id rest

unfoldable pub copy_exceptions :
    (uuid : ℕ → String) → ℕ → (new_id : String) → List LegalException → List LegalException
copy_exceptions uuid n new_id [] = []
copy_exceptions uuid n new_id (e ∷ rest) =
    record e { id = uuid n; requirement_id = new_id } ∷ copy_exceptions uuid (suc n) new_id rest

-- `old.superseded_by_id = new.id`, in the row of `old`
unfoldable pub set_superseded : (old_id new_id : String) → List Requirement → List Requirement
set_superseded old_id new_id [] = []
set_superseded old_id new_id (r ∷ rest) =
    let others = set_superseded old_id new_id rest in
    if str_eq r.id old_id then record r { superseded_by_id = some new_id } ∷ others else r ∷ others

module _ (engine : Engine) (uuid : ℕ → String) (now : DateTime) where
  -- the relationship `old.applicability_conditions`
  unfoldable pub conditions_of : Requirement → LegalStore → List ApplicabilityCondition
  conditions_of old store =
      engine.rows ApplicabilityCondition (λ c. str_eq c.requirement_id old.id)
        store.applicability_conditions

  -- the relationship `old.exceptions`
  unfoldable pub old_exceptions : Requirement → LegalStore → List LegalException
  old_exceptions old store =
      engine.rows LegalException (λ e. str_eq e.requirement_id old.id) store.exceptions

  unfoldable pub new_version :
      (old : Requirement) (new_summary new_primary_provision_id : String) → Requirement
  new_version old new_summary new_primary_provision_id = record {
    id = uuid 0;
    requirement_key = old.requirement_key;
    version = old.version + 1;
    summary = new_summary;
    primary_provision_id = new_primary_provision_id;
    superseded_by_id = none;
    created_at = now;
  }

  -- What the function adds and changes, once it has not raised.
  unfoldable pub superseded_store : (old new : Requirement) → LegalStore → LegalStore
  unfolding conditions_of old_exceptions
  superseded_store old new store =
      let conditions = conditions_of old store in
      record store {
        requirements = set_superseded old.id new.id (store.requirements ++ (new ∷ []));
        applicability_conditions =
            store.applicability_conditions ++ copy_conditions uuid 1 new.id conditions;
        exceptions =
            store.exceptions
            ++ copy_exceptions uuid (1 + length conditions) new.id (old_exceptions old store);
      }

  unfoldable pub supersede_requirement :
      (old : Requirement) (new_summary new_primary_provision_id : String)
      → Exec LegalStore Requirement
  unfolding new_version superseded_store
  supersede_requirement old new_summary new_primary_provision_id store =
      if is_some old.superseded_by_id
      then (err (value_error "Requirement is already superseded"), store)
      else let new = new_version old new_summary new_primary_provision_id in
        (ok new, superseded_store old new store)
