-- ===== src/Api/Routes/Login.antt =====
-- src/api/routers/auth_routes.py: logging in and out. `monotonic` is the limiter's clock and `now`
-- the time of day.
pub mod Accepted
use eu_ai_act_compliance.Prelude.{ℕ, String, Bool, List, Option, none, some, str_eq}
use eu_ai_act_compliance.Result.{Result, ok, err}
use eu_ai_act_compliance.Exec.{Exec, pure, lift, ◌>>=◌, ◌>>◌}
use eu_ai_act_compliance.Builtins.Decimal.{ℤ}
use eu_ai_act_compliance.Persistence.Engine.{Engine}
use eu_ai_act_compliance.Persistence.Models.{User}
use eu_ai_act_compliance.Persistence.Tenancy.{SessionInfo}
use eu_ai_act_compliance.Auth.Passwords.{Pbkdf2}
use eu_ai_act_compliance.Auth.Sessions.{
  ClockTime, Signing, cookie_name, default_max_age_seconds, issue_session,
}
use eu_ai_act_compliance.Auth.Users.{authenticate}
use eu_ai_act_compliance.Api.RateLimit.{RateLimiter, limit_request}

pub record SetCookie : Type 0 where
  pub name : String
  pub value : String
  pub max_age : ℤ
  pub httponly : Bool
  pub samesite : String
  pub secure : Bool

pub data LoginReply : Type 0 where
  -- the log-in page again
  login_page : (email error : String) (status_code : ℕ) → LoginReply
  redirect_response : (location : String) (status_code : ℕ) → SetCookie → LoginReply

-- `submit_login` of a visitor whom the limiter lets through
module _ (hashing : Pbkdf2) (lower : String → String) (signing : Signing)
    (session_secret : Option String) (engine : Engine) (info : SessionInfo) where
  cookie_of : (scheme value : String) → SetCookie
  cookie_of scheme value = record {
    name = cookie_name;
    value = value;
    max_age = default_max_age_seconds;
    httponly = Bool.true;
    samesite = "lax";
    secure = str_eq scheme "https";
  }

  logged_in : (scheme : String) → Result String → Result LoginReply
  unfolding cookie_of
  logged_in scheme (err e) = err e
  logged_in scheme (ok value) = ok (redirect_response "/" 303 (cookie_of scheme value))

  reply_to : (now : ClockTime) (scheme email : String) → Option User → Result LoginReply
  unfolding logged_in
  reply_to now scheme email none = ok (login_page email "Incorrect email or password." 401)
  reply_to now scheme email (some user) =
      logged_in scheme (issue_session signing session_secret now user.id default_max_age_seconds)

  unfoldable pub submit_login :
      (monotonic : ℕ) (now : ClockTime) (client_host : Option String) (scheme : String)
      (dummy_salt : List ℕ) (email password : String) (users : List User)
      → Exec RateLimiter LoginReply
  unfolding reply_to
  submit_login monotonic now client_host scheme dummy_salt email password users = do
    limit_request monotonic client_host
    user ← lift (authenticate hashing lower engine info dummy_salt email password users)
    lift (reply_to now scheme email user)

-- `logout`: where it leads, with what status, and the cookie that it deletes
unfoldable pub logout : String × ℕ × String
logout = ("/login", 303, cookie_name)
