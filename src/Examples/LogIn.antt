-- ===== src/Examples/LogIn.antt =====
-- A toy digest and a toy cookie encoding, with one user who logs in.
use Prim.Native.Char.{code}
use eu_ai_act_compliance.Prelude.{
  ℕ, ◌%◌, String, true, false, List, [], ◌∷◌, Option, none, some, ◌≡◌, ◌↔◌, refl, sym, ◌∙◌, arith,
  Mem, strip, contains, ◌+s◌,
}
use mathlib.Core.Logic.Or
use mathlib.Core.List.{mem-cons, not-mem-nil}
use eu_ai_act_compliance.Result.{type_error, ok, err}
use eu_ai_act_compliance.Builtins.Decimal.{ℤ, pos, add_ℕ, str_int, int_of}
use eu_ai_act_compliance.Builtins.Digest.{is_ascii, compare_digest}
use eu_ai_act_compliance.Builtins.Hex.{hex, fromhex}
use eu_ai_act_compliance.Builtins.Hex.RoundTrip.{Bytes}
use eu_ai_act_compliance.Builtins.Split.{four_of, split, rsplit, three_of}
use eu_ai_act_compliance.Schemas.Enums.UserRole.{member}
use eu_ai_act_compliance.Persistence.Engine.{in_table_order}
use eu_ai_act_compliance.Persistence.Models.{User}
use eu_ai_act_compliance.Persistence.Tenancy.{SessionInfo, bind_tenant, select_where}
use eu_ai_act_compliance.Auth.Passwords.{Pbkdf2, stored_form, hash_password, verify_password}
use eu_ai_act_compliance.Auth.Passwords.Verified.{
  verify_password-hash_password, verify_password-not_ascii,
}
use eu_ai_act_compliance.Auth.Sessions.{
  ClockTime, before, Signing, issue_session, read_session, bar, default_max_age_seconds,
}
use eu_ai_act_compliance.Auth.Sessions.Signed.{
  Proven, read_session-issue_session, read_session-Proven, read_session-not_ascii,
}
use eu_ai_act_compliance.Auth.Users.{users, create_user, validate_password, authenticate}
use eu_ai_act_compliance.Auth.Users.LogIn.{authenticate-create_user, User-set}
use eu_ai_act_compliance.Api.Access.{get_current_user}
use eu_ai_act_compliance.Api.RateLimit.{login_rate_limiter, limit_request, lookup, expire}
use eu_ai_act_compliance.Api.Routes.Login.{SetCookie, redirect_response, submit_login}
use eu_ai_act_compliance.Api.Routes.Login.Accepted.{get_current_user-submit_login}

abbrev bytes_of : String → List ℕ
bytes_of String.[] = []
bytes_of (String.◌∷◌ c s) = code c % 256 ∷ bytes_of s

bytes_of-Bytes : (s : String) → Bytes (bytes_of s)
bytes_of-Bytes String.[] = tt
bytes_of-Bytes (String.◌∷◌ c s) = (omega arith, bytes_of-Bytes s)

digest_bytes :
    (password : String) (salt : List ℕ) (iterations : ℤ) {digest : List ℕ}
    → ok (bytes_of password) ≡ ok digest
    → Bytes digest
digest_bytes password salt iterations {digest} h =
    let e : bytes_of password ≡ digest = cc in rw (← e) (bytes_of-Bytes password)

abbrev toy_hashing : Pbkdf2
toy_hashing = record {
  pbkdf2_hmac = λ password salt iterations. ok (bytes_of password);
  digest-Bytes = λ password salt iterations h. digest_bytes password salt iterations h;
  unicode_digit = λ c. none;
}

abbrev toy_signing : Signing
toy_signing = record {
  hmac_sha256 = λ key payload. bytes_of (key +s payload);
  digest-Bytes = λ key payload. bytes_of-Bytes (key +s payload);
  urlsafe_b64encode = λ token. token;
  urlsafe_b64decode = λ cookie. some cookie;
  decode-encode = λ token. refl;
  encode-nonempty = λ token h. h;
  unicode_digit = λ c. none;
}

abbrev secret_k : Option String
secret_k = some "k"

abbrev at : ℕ → ClockTime
at seconds = record { seconds = seconds; has_fraction = true }

-- the cookie of user "u" that is issued at 100 for 50 seconds
abbrev cookie_150 : String
cookie_150 = "u|150|6b757c313530"

issued_150 : issue_session toy_signing secret_k (at 100) "u" (pos 50) ≡ ok cookie_150
unfolding issue_session str_int hex
issued_150 = refl

fresh_149 : before (add_ℕ (pos 50) 100) (at 149) ≡ false
unfolding before
fresh_149 = refl

read_session-issue_session_example :
    read_session toy_signing secret_k (at 149) (some cookie_150) ≡ ok (some "u")
read_session-issue_session_example =
    read_session-issue_session toy_signing secret_k (at 100) (at 149) "u" (pos 50) issued_150
      fresh_149

read_149 : read_session toy_signing secret_k (at 149) (some cookie_150) ≡ ok (some "u")
unfolding read_session three_of rsplit compare_digest hex int_of
read_149 = refl

read_session-Proven_example : Proven toy_signing secret_k (at 149) (some cookie_150) "u"
read_session-Proven_example =
    read_session-Proven toy_signing secret_k (at 149) (some cookie_150) "u" read_149

read_session-not_ascii_example :
    read_session toy_signing secret_k (at 149) (some "u|150|é")
    ≡ err (type_error "comparing strings with non-ASCII characters is not supported")
unfolding bar is_ascii
read_session-not_ascii_example =
    read_session-not_ascii toy_signing secret_k (at 149) "u|150|é" "u" "150" "é" "k" refl refl
      (omega arith) (omega arith) refl refl refl

abbrev ada_password : String
ada_password = "correct horse battery"

-- the stored form of the password for the salt 7
abbrev ada_hash : String
ada_hash = "pbkdf2_sha256$600000$07$636f727265637420686f7273652062617474657279"

hashed_ada : hash_password toy_hashing (7 ∷ []) ada_password (pos 600_000) ≡ ok ada_hash
unfolding hash_password str_int hex stored_form
hashed_ada = refl

verify_password-hash_password_example : (verify_password toy_hashing "guess" ada_hash ≡ ok true) ↔ (
    toy_hashing.pbkdf2_hmac "guess" (7 ∷ []) (pos 600_000)
    ≡ toy_hashing.pbkdf2_hmac ada_password (7 ∷ []) (pos 600_000))
verify_password-hash_password_example =
    verify_password-hash_password toy_hashing (7 ∷ []) ada_password (pos 600_000) "guess"
      (omega arith) hashed_ada

printed_600000 : str_int (pos 600_000) ≡ ok "600000"
unfolding str_int
printed_600000 = refl

verify_password-not_ascii_example :
    verify_password toy_hashing "guess" (stored_form "600000" (hex (7 ∷ [])) "é")
    ≡ err (type_error "comparing strings with non-ASCII characters is not supported")
unfolding is_ascii
verify_password-not_ascii_example =
    verify_password-not_ascii toy_hashing "guess" "600000" (7 ∷ []) (pos 600_000) "é"
      (bytes_of "guess") printed_600000 (omega arith) refl (omega arith) refl

abbrev ada : User
ada = record {
  id = "u";
  tenant_id = "acme";
  email = "ada@acme.eu";
  password_hash = ada_hash;
  role = member;
  created_at = 0;
}

abbrev lower : String → String
lower text = text

abbrev new_session : SessionInfo
new_session = record { tenant_id = none; cross_tenant = none }

created_ada :
    create_user toy_hashing lower "u" 0 (7 ∷ []) "acme" "ada@acme.eu " ada_password member []
    ≡ (ok ada, ada ∷ [])
unfolding create_user validate_password hash_password str_int hex stored_form strip
created_ada = refl

authenticate-create_user_example :
    authenticate toy_hashing lower in_table_order new_session
      (0 ∷ [])
      " ada@acme.eu"
      ada_password
      (ada ∷ [])
    ≡ ok (some ada)
unfolding strip
authenticate-create_user_example =
    authenticate-create_user toy_hashing lower "u" 0 (7 ∷ []) "acme" "ada@acme.eu " ada_password
      member [] in_table_order new_session (0 ∷ []) " ada@acme.eu" (omega arith) refl created_ada

only_ada : (user : User) → Mem user (ada ∷ []) → user ≡ ada
only_ada user m = Or.elim (User-set _ _) (mem-cons.0 m) (λ e. e) (λ r. absurd (not-mem-nil r))

-- the cookie that a log-in at second 100 sets over https
abbrev ada_cookie : SetCookie
ada_cookie = record {
  name = "session";
  value = "u|43300|6b757c3433333030";
  max_age = pos 43_200;
  httponly = true;
  samesite = "lax";
  secure = true;
}

logged_in_ada :
    (submit_login toy_hashing lower toy_signing secret_k in_table_order new_session 5
      (at 100)
      none
      "https"
      (0 ∷ [])
      "ada@acme.eu"
      ada_password
      (ada ∷ [])
      login_rate_limiter).0
    ≡ ok (redirect_response "/" 303 ada_cookie)
unfolding submit_login limit_request login_rate_limiter expire lookup authenticate select_where
    contains users strip verify_password four_of split fromhex int_of compare_digest hex
    issue_session str_int
logged_in_ada = refl

fresh_43300 : before (add_ℕ default_max_age_seconds 100) (at 43_299) ≡ false
unfolding before
fresh_43300 = refl

get_current_user-submit_login_example :
    (user : User) × Mem user (ada ∷ [])
    × (user.email ≡ lower (strip "ada@acme.eu"))
    × (verify_password toy_hashing ada_password user.password_hash ≡ ok true)
    × (get_current_user
          (read_session toy_signing secret_k (at 43_299))
          in_table_order
          (ada ∷ [])
          (some ada_cookie.value)
          new_session
        ≡ (ok user, bind_tenant user.tenant_id new_session))
get_current_user-submit_login_example =
    get_current_user-submit_login toy_hashing lower toy_signing secret_k in_table_order new_session
      5 (at 100) none "https" (0 ∷ []) "ada@acme.eu" ada_password (ada ∷ []) login_rate_limiter
      (at 43_299) new_session (λ user m v n e. only_ada v n ∙ sym (only_ada user m)) logged_in_ada
      fresh_43300
