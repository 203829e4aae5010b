-- ===== src/Api/Access.antt =====
-- src/api/auth.py: who makes a request, and what the role lets them do. `read_session` of sessions.py
-- is a parameter: the user id that a cookie proves, or None, or a configuration error.
pub mod Requests
pub mod Known
use eu_ai_act_compliance.Prelude.{
  String, Bool, true, false, ◌||◌, List, [], ◌∷◌, Option, none, some, if◌then◌else◌,
}
use eu_ai_act_compliance.Result.{not_authenticated, not_authorised, Result, ok, err}
use eu_ai_act_compliance.Exec.{Exec, raise, lift, pure, ◌>>=◌}
use eu_ai_act_compliance.Schemas.Enums.UserRole
use eu_ai_act_compliance.Schemas.Enums.UserRole.{UserRole, admin, member, viewer}
use eu_ai_act_compliance.Persistence.Engine.{Engine}
use eu_ai_act_compliance.Persistence.Models.{User}
use eu_ai_act_compliance.Persistence.Tenancy.{SessionInfo, bind_tenant}
use eu_ai_act_compliance.Auth.Users.{get_user}

-- `role in allowed`
unfoldable pub role_among : UserRole → List UserRole → Bool
role_among role [] = false
role_among role (r ∷ rest) = UserRole.eq r role || role_among role rest

module _ (read_session : Option String → Result (Option String)) (engine : Engine)
    (users : List User) where
  found_user : Option User → Exec SessionInfo User
  unfolding bind_tenant
  found_user none info = (err not_authenticated, info)
  found_user (some user) info = (ok user, bind_tenant user.tenant_id info)

  user_of : Option String → Exec SessionInfo User
  unfolding found_user
  user_of none info = (err not_authenticated, info)
  user_of (some user_id) info =
      (lift {S = SessionInfo} (get_user engine info user_id users) >>= found_user) info

  -- `get_current_user`
  unfoldable pub get_current_user : (cookie : Option String) → Exec SessionInfo User
  unfolding user_of
  get_current_user cookie = do user_id ← lift (read_session cookie); user_of user_id

  -- `_check` of `require_role(*allowed)`
  unfoldable pub require_role :
      (allowed : List UserRole) (cookie : Option String) → Exec SessionInfo User
  unfolding get_current_user role_among
  require_role allowed cookie = do
    user ← get_current_user cookie
    if role_among user.role allowed then pure user else raise not_authorised

  unfoldable pub require_writer : (cookie : Option String) → Exec SessionInfo User
  unfolding require_role
  require_writer cookie = require_role (admin ∷ member ∷ []) cookie

  unfoldable pub require_admin : (cookie : Option String) → Exec SessionInfo User
  unfolding require_role
  require_admin cookie = require_role (admin ∷ []) cookie
