-- ===== src/Api/Routes/Login/Accepted.antt =====
-- src/api/routers/auth_routes.py: who is logged in, and that the cookie lets the user in.
use eu_ai_act_compliance.Prelude.{
  ℕ, String, true, false, List, Option, none, some, ◌≡◌, ap, Mem, strip,
}
use eu_ai_act_compliance.Result.{Result, ok, err}
use eu_ai_act_compliance.Exec.{lift, bind-eq-ok, ◌>>=◌}
use eu_ai_act_compliance.Builtins.Decimal.{add_ℕ}
use eu_ai_act_compliance.Persistence.Engine.{Engine}
use eu_ai_act_compliance.Persistence.Models.{User}
use eu_ai_act_compliance.Persistence.Tenancy.{SessionInfo, bind_tenant}
use eu_ai_act_compliance.Auth.Passwords.{Pbkdf2, verify_password}
use eu_ai_act_compliance.Auth.Sessions.{
  ClockTime, Signing, before, default_max_age_seconds, issue_session, read_session,
}
use eu_ai_act_compliance.Auth.Sessions.Signed.{read_session-issue_session}
use eu_ai_act_compliance.Auth.Users.{authenticate}
use eu_ai_act_compliance.Auth.Users.Accounts.{authenticate-verified}
use eu_ai_act_compliance.Api.RateLimit.{RateLimiter, limit_request}
use eu_ai_act_compliance.Api.Access.{get_current_user}
use eu_ai_act_compliance.Api.Access.Known.{HasOwnId, get_current_user-known}
use eu_ai_act_compliance.Api.Routes.Login.{
  SetCookie, redirect_response, cookie_of, logged_in, reply_to, submit_login,
}

module _ (hashing : Pbkdf2) (lower : String → String) (signing : Signing)
    (session_secret : Option String) (engine : Engine) (info : SessionInfo) where
  -- What a log-in that was accepted did.
  pub record Accepted (now : ClockTime) (dummy_salt : List ℕ) (email password : String)
      (users : List User) (cookie : SetCookie) : Type 0 where
    pub user : User
    pub authenticated :
        authenticate hashing lower engine info dummy_salt email password users ≡ ok (some user)
    pub issued :
        issue_session signing session_secret now user.id default_max_age_seconds ≡ ok cookie.value

  logged_in-issued :
      (scheme : String) (r : Result String) (location : String) (status_code : ℕ)
      (cookie : SetCookie)
      → logged_in hashing lower signing session_secret engine info scheme r
        ≡ ok (redirect_response location status_code cookie)
      → r ≡ ok cookie.value
  unfolding logged_in cookie_of
  logged_in-issued scheme (err e) location status_code cookie h = cc
  logged_in-issued scheme (ok value) location status_code cookie h =
      let e : cookie_of hashing lower signing session_secret engine info scheme value ≡ cookie =
        cc in
      ap (λ c. ok c.value) e

  reply_to-Accepted :
      (now : ClockTime) (scheme : String) (dummy_salt : List ℕ) (email password : String)
      (users : List User) (found : Option User) (location : String) (status_code : ℕ)
      (cookie : SetCookie)
      → authenticate hashing lower engine info dummy_salt email password users ≡ ok found
      → reply_to hashing lower signing session_secret engine info now scheme email found
        ≡ ok (redirect_response location status_code cookie)
      → Accepted now dummy_salt email password users cookie
  unfolding reply_to
  reply_to-Accepted now scheme dummy_salt email password users none location status_code cookie e
        h =
      cc
  reply_to-Accepted now scheme dummy_salt email password users (some user) location status_code
        cookie e h =
      record {
        user = user;
        authenticated = e;
        issued = logged_in-issued scheme _ location status_code cookie h;
      }

  module _ (monotonic : ℕ) (now : ClockTime) (client_host : Option String) (scheme : String)
      (dummy_salt : List ℕ) (email password : String) (users : List User) (limiter : RateLimiter)
      {location : String} {status_code : ℕ} {cookie : SetCookie} where
    submit_login-Accepted :
        (submit_login hashing lower signing session_secret engine info monotonic now client_host
            scheme dummy_salt email password users limiter).0
          ≡ ok (redirect_response location status_code cookie)
        → Accepted now dummy_salt email password users cookie
    unfolding submit_login
    submit_login-Accepted h =
        let (let_through, passed, h') =
          bind-eq-ok (limit_request monotonic client_host)
            (λ done.
              lift (authenticate hashing lower engine info dummy_salt email password users)
              >>= λ user.
                  lift (
                    reply_to hashing lower signing session_secret engine info now scheme email
                      user))
            limiter h in
        let (found, e, last) =
          bind-eq-ok (lift (authenticate hashing lower engine info dummy_salt email password users))
            (λ user.
              lift
                (reply_to hashing lower signing session_secret engine info now scheme email user))
            (limit_request monotonic client_host limiter).1 h' in
        reply_to-Accepted now scheme dummy_salt email password users found location status_code
          cookie e last

    -- A log-in that answers with a cookie has found a user of the table with the given email and password.
    -- Until the cookie's expiry lies before the clock, each request with it is made by that user, for whose
    -- tenant the session is bound, provided that no other row has the user's id.
    pub get_current_user-submit_login :
        (later : ClockTime) (request_info : SessionInfo)
        → ((user : User) → Mem user users → HasOwnId user users)
        → (submit_login hashing lower signing session_secret engine info monotonic now client_host
            scheme dummy_salt email password users limiter).0
          ≡ ok (redirect_response location status_code cookie)
        → before (add_ℕ default_max_age_seconds now.seconds) later ≡ false
        → (user : User) × Mem user users
          × (user.email ≡ lower (strip email))
          × (verify_password hashing password user.password_hash ≡ ok true)
          × (get_current_user
                (read_session signing session_secret later)
                engine
                users
                (some cookie.value)
                request_info
              ≡ (ok user, bind_tenant user.tenant_id request_info))
    get_current_user-submit_login later request_info unique h fresh =
        let accepted = submit_login-Accepted h in
        let user = accepted.user in
        let (m, named, verified) =
          authenticate-verified hashing lower engine info dummy_salt email password users user
            accepted.authenticated in
        let proof =
          read_session-issue_session signing session_secret now later user.id
            default_max_age_seconds accepted.issued fresh in
        (
          user,
          m,
          named,
          verified,
          get_current_user-known (read_session signing session_secret later) engine users
              (some cookie.value) request_info user proof m (unique user m),
        )
