-- ===== src/Examples/Access.antt =====
-- A request of one member, from the cookie to the rows.
use eu_ai_act_compliance.Prelude.{
  String, true, false, List, [], ◌∷◌, Option, none, some, ◌≡◌, ◌↔◌, refl, Mem, contains,
}
use eu_ai_act_compliance.Result.{Result, ok}
use eu_ai_act_compliance.Schemas.Enums.UserRole.{member}
use eu_ai_act_compliance.Persistence.Engine.{in_table_order}
use eu_ai_act_compliance.Persistence.Models.{User, AiSystem}
use eu_ai_act_compliance.Persistence.Tenancy.{
  SessionInfo, is_cross_tenant, select_where, tenant_scoped_tablenames,
}
use eu_ai_act_compliance.Legal.Deadlines.{ai_systems}
use eu_ai_act_compliance.Auth.Users.{users, get_user}
use eu_ai_act_compliance.Api.Access.{require_writer}
use eu_ai_act_compliance.Api.Access.Requests.{require_writer-isolated}

abbrev pub ada : User
ada = record {
  id = "u1";
  tenant_id = "acme";
  email = "ada@acme.eu";
  password_hash = "correct horse battery";
  role = member;
  created_at = 0;
}

abbrev new_session : SessionInfo
new_session = record { tenant_id = none; cross_tenant = none }

abbrev read_session : Option String → Result (Option String)
read_session cookie = ok (some "u1")

passed : (require_writer read_session in_table_order (ada ∷ []) (some "c") new_session).0 ≡ ok ada
unfolding require_writer get_user select_where users contains
passed = refl

not_exempt : is_cross_tenant new_session ≡ false
unfolding is_cross_tenant
not_exempt = refl

abbrev scorer : (id tenant : String) → AiSystem
scorer id tenant = record {
  id = id;
  tenant_id = some tenant;
  name = "Scorer";
  description = none;
  owner_note = none;
  created_at = 0;
}

require_writer-isolated_example :
    (found : List AiSystem) × (select_where in_table_order ai_systems
        (require_writer read_session in_table_order (ada ∷ []) (some "c") new_session).1
        (λ s. true)
        (scorer "s1" "acme" ∷ scorer "s2" "globex" ∷ [])
      ≡ ok found)
    × ((row : AiSystem)
        → Mem row found ↔ (
            Mem row (scorer "s1" "acme" ∷ scorer "s2" "globex" ∷ [])
            × (true ≡ true)
            × (row.tenant_id ≡ some "acme")))
unfolding ai_systems contains tenant_scoped_tablenames
require_writer-isolated_example =
    require_writer-isolated read_session in_table_order (ada ∷ []) (some "c") new_session ada passed
      ai_systems (λ s. true) (scorer "s1" "acme" ∷ scorer "s2" "globex" ∷ []) not_exempt refl refl
