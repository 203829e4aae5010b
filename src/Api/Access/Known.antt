-- ===== src/Api/Access/Known.antt =====
-- src/api/auth.py: a cookie that proves a user of the table lets the user in.
use eu_ai_act_compliance.Prelude.{
  String, true, ◌&&◌, List, Option, some, ◌≡◌, refl, ap, Mem, str_eq, str_eq_iff, str_eq_refl,
}
use eu_ai_act_compliance.Result.{Result, ok}
use eu_ai_act_compliance.Persistence.Engine.{Engine, mem-rows_of_mem, first_of_mem}
use eu_ai_act_compliance.Persistence.Models.{User}
use eu_ai_act_compliance.Persistence.Tenancy.{SessionInfo, bind_tenant}
use eu_ai_act_compliance.Auth.Users.{get_user}
use eu_ai_act_compliance.Auth.Users.Accounts.{select_users, first-user}
use eu_ai_act_compliance.Api.Access.{found_user, user_of, get_current_user}

-- No other row of the table has the user's id.
abbrev pub HasOwnId : User → List User → Type 0
HasOwnId u table = (v : User) → Mem v table → v.id ≡ u.id → v ≡ u

get_user-found :
    (engine : Engine) (info : SessionInfo) (table : List User) (u : User)
    → Mem u table
    → HasOwnId u table
    → get_user engine info u.id table ≡ ok (some u)
unfolding get_user
get_user-found engine info table u m unique =
    let test = λ (v : User). str_eq v.id u.id in
    let kept =
      mem-rows_of_mem engine (λ row. test row && true) table m
        (rw (str_eq_refl u.id) (let e : true && true ≡ true = cc in e)) in
    let (b, k) = first_of_mem _ kept in
    let (n, same) = first-user engine info test table b k in
    rw (select_users engine info test table, k)
      (ap (λ v. ok (some v)) (unique b n ((str_eq_iff _ _).0 same)))

pub get_current_user-known :
    (read_session : Option String → Result (Option String)) (engine : Engine) (table : List User)
    (cookie : Option String) (info : SessionInfo) (u : User)
    → read_session cookie ≡ ok (some u.id)
    → Mem u table
    → HasOwnId u table
    → get_current_user read_session engine table cookie info ≡ (ok u, bind_tenant u.tenant_id info)
unfolding get_current_user user_of found_user
get_current_user-known read_session engine table cookie info u proof m unique =
    rw (proof, get_user-found engine info table u m unique) refl
