-- ===== src/Auth/Sessions.antt =====
-- src/auth/sessions.py: signed session cookies. HMAC-SHA256 and base64 are parameters, and the
-- environment's SESSION_SECRET and the clock are given. A reading of the clock is its whole
-- seconds, and whether it is past them.
pub mod Signed
use eu_ai_act_compliance.Prelude.{
  ℕ, ◌+◌, ◌*◌, String, Bool, true, false, not, ◌&&◌, ◌||◌, List, Option, none, some, ltb, ◌==◌,
  is_nonempty, if◌then◌else◌, ◌+s◌, ◌≡◌,
}
use eu_ai_act_compliance.Result.{session_config_error, Result, ok, err, ◌>>=◌}
use eu_ai_act_compliance.Builtins.Decimal.{ℤ, pos, negsuc, add_ℕ, str_int, int_of}
use eu_ai_act_compliance.Builtins.Digest.{compare_digest}
use eu_ai_act_compliance.Builtins.Hex.{hex}
use eu_ai_act_compliance.Builtins.Hex.RoundTrip.{Bytes}
use eu_ai_act_compliance.Builtins.Split.{rsplit, three_of}

abbrev pub cookie_name : String
cookie_name = "session"

abbrev pub default_max_age_seconds : ℤ
default_max_age_seconds = pos (12 * 60 * 60)

pub record ClockTime : Type 0 where
  pub seconds : ℕ
  pub has_fraction : Bool

-- `expiry < time.time()`; the clock is not before 1970
unfoldable pub before : ℤ → ClockTime → Bool
before (pos n) now = ltb n now.seconds || (n == now.seconds && now.has_fraction)
before (negsuc n) now = true

pub record Signing : Type 0 where
  -- `hmac.new(key.encode(), payload.encode(), hashlib.sha256).digest()`
  pub hmac_sha256 : (key payload : String) → List ℕ
  pub digest-Bytes : (key payload : String) → Bytes (hmac_sha256 key payload)
  -- `base64.urlsafe_b64encode(token.encode()).decode()`
  pub urlsafe_b64encode : String → String
  -- `base64.urlsafe_b64decode(cookie_value.encode()).decode()`; `none` is a ValueError
  pub urlsafe_b64decode : String → Option String
  pub decode-encode : (token : String) → urlsafe_b64decode (urlsafe_b64encode token) ≡ some token
  pub encode-nonempty :
      (token : String) → is_nonempty token ≡ true → is_nonempty (urlsafe_b64encode token) ≡ true
  -- the digit that a character above 127 stands for
  pub unicode_digit : ℕ → Option ℕ

module _ (signing : Signing) (session_secret : Option String) where
  -- `_secret`
  unfoldable pub secret : Result String
  secret = elim session_secret [
    | none ↦ err (session_config_error "SESSION_SECRET is not configured.")
    | some key ↦
        if is_nonempty key
        then ok key
        else err (session_config_error "SESSION_SECRET is not configured.")
  ]

  -- `_sign`
  unfoldable pub sign : String → Result String
  unfolding secret
  sign payload = do key ← secret; ok (hex (signing.hmac_sha256 key payload))

  -- `f"{a}|{b}"`
  unfoldable pub bar : String → String → String
  bar a b = a +s String.◌∷◌ "|" b

  unfoldable pub issue_session :
      (now : ClockTime) (user_id : String) (max_age_seconds : ℤ) → Result String
  unfolding sign bar
  issue_session now user_id max_age_seconds = do
    expiry ← str_int (add_ℕ max_age_seconds now.seconds)
    tag ← sign (bar user_id expiry)
    ok (signing.urlsafe_b64encode (bar (bar user_id expiry) tag))

  -- From the expiry on, which the tag vouches for.
  unexpired : ClockTime → (user_id : String) → Option ℤ → Option String
  unfolding before
  unexpired now user_id none = none
  unexpired now user_id (some expiry) = if before expiry now then none else some user_id

  accept : ClockTime → (user_id expiry_str : String) → (same : Bool) → Result (Option String)
  unfolding unexpired
  accept now user_id expiry_str same =
      if same then ok (unexpired now user_id (int_of signing.unicode_digit expiry_str)) else ok none

  verified : ClockTime → Option (String × String × String) → Result (Option String)
  unfolding sign bar accept
  verified now none = ok none
  verified now (some (user_id, expiry_str, provided_tag)) = do
    tag ← sign (bar user_id expiry_str)
    same ← compare_digest provided_tag tag
    accept now user_id expiry_str same

  decoded : ClockTime → Option String → Result (Option String)
  unfolding verified
  decoded now none = ok none
  decoded now (some token) = verified now (three_of (rsplit "|" token 2))

  unfoldable pub read_session : ClockTime → (cookie_value : Option String) → Result (Option String)
  unfolding decoded
  read_session now none = ok none
  read_session now (some cookie_value) =
      if is_nonempty cookie_value
      then decoded now (signing.urlsafe_b64decode cookie_value)
      else ok none
