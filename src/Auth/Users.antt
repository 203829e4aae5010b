-- ===== src/Auth/Users.antt =====
-- src/auth/users.py: users and tenants. `str.lower` is given, and so are the salts that are drawn,
-- a row's id and its time of creation. The database refuses a second user with the same email.
pub mod Accounts
pub mod LogIn
use Prim.Native.String.{count}
use eu_ai_act_compliance.Prelude.{
  ℕ, String, Bool, true, false, List, [], ◌∷◌, ◌++◌, any, Option, none, some, ltb, str_eq, strip,
  first, if◌then◌else◌,
}
use eu_ai_act_compliance.Result.{weak_password_error, environment, Result, ok, err, ◌>>=◌, ◌>>◌}
use eu_ai_act_compliance.Exec.{Exec}
use eu_ai_act_compliance.Builtins.Decimal.{pos}
use eu_ai_act_compliance.Auth.Passwords.{Pbkdf2, iterations_default, hash_password, verify_password}
use eu_ai_act_compliance.Calendar.{DateTime}
use eu_ai_act_compliance.Schemas.Enums.UserRole.{UserRole}
use eu_ai_act_compliance.Persistence.Engine.{Engine}
use eu_ai_act_compliance.Persistence.Models.{Tenant, User}
use eu_ai_act_compliance.Persistence.Tenancy.{SessionInfo, Mapper, select_where}

abbrev pub min_password_length : ℕ
min_password_length = 12

-- `validate_password`
unfoldable pub validate_password : String → Result (Unit {0})
validate_password password =
    if ltb (count password) min_password_length
    then err (weak_password_error "Password must be at least 12 characters.")
    else ok tt

unfoldable pub create_tenant :
    (id : String) (now : DateTime) (name : String) → List Tenant → Tenant × List Tenant
create_tenant id now name tenants =
    let tenant : Tenant = record { id = id; name = name; created_at = now } in
    (tenant, tenants ++ (tenant ∷ []))

-- The class `User`, which does not inherit `TenantScoped`.
unfoldable pub users : Mapper User
users = record { tablename = "users"; is_tenant_scoped = false; owner = λ u. none }

insert_user : User → List User → Result User × List User
insert_user user table =
    if any (λ u. str_eq u.email user.email) table
    then (err (environment 0), table)
    else (ok user, table ++ (user ∷ []))

insert_hashed : Result String → (String → User) → List User → Result User × List User
unfolding insert_user
insert_hashed (err e) user table = (err e, table)
insert_hashed (ok password_hash) user table = insert_user (user password_hash) table

checked : (verify : Bool) → User → Option User
checked true user = some user
checked false user = none

module _ (hashing : Pbkdf2) (lower : String → String) where
  -- `salt` is the one that `hash_password` draws.
  unfoldable pub create_user :
      (id : String) (now : DateTime) (salt : List ℕ) (tenant_id email password : String)
      (role : UserRole)
      → List User
      → Result User × List User
  unfolding validate_password insert_hashed
  create_user id now salt tenant_id email password role table =
      insert_hashed
        (validate_password password >> hash_password hashing salt password iterations_default)
        (λ password_hash. record {
          id = id;
          tenant_id = tenant_id;
          email = lower (strip email);
          password_hash = password_hash;
          role = role;
          created_at = now;
        })
        table

  -- The missing user costs a verification, too, whose answer is dropped.
  authenticate_found :
      (dummy_salt : List ℕ) (password : String) → Option User → Result (Option User)
  unfolding checked
  authenticate_found dummy_salt password none = do
    dummy ← hash_password hashing dummy_salt "timing-equalisation-dummy" (pos 1000)
    dropped ← verify_password hashing password dummy
    ok none
  authenticate_found dummy_salt password (some user) = do
    verify ← verify_password hashing password user.password_hash
    ok (checked verify user)

  module _ (engine : Engine) (info : SessionInfo) where
    unfoldable pub authenticate :
        (dummy_salt : List ℕ) (email password : String) → List User → Result (Option User)
    unfolding authenticate_found
    authenticate dummy_salt email password table = do
      found ← select_where engine users info (λ u. str_eq u.email (lower (strip email))) table
      authenticate_found dummy_salt password (first found)

-- `session.get(User, user_id)`, as a select by the primary key
unfoldable pub get_user :
    Engine → SessionInfo → (user_id : String) → List User → Result (Option User)
get_user engine info user_id table = do
  found ← select_where engine users info (λ u. str_eq u.id user_id) table
  ok (first found)

-- `list_users_for_tenant`, ordered by email with the database's order of texts
unfoldable pub list_users_for_tenant :
    Engine
    → SessionInfo
    → (text_lt : String → String → Bool) (tenant_id : String) → List User
    → Result (List User)
list_users_for_tenant engine info text_lt tenant_id table = do
  found ← select_where engine users info (λ u. str_eq u.tenant_id tenant_id) table
  ok (engine.order_by User (λ a b. text_lt a.email b.email) found)
