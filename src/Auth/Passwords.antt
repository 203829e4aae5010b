-- ===== src/Auth/Passwords.antt =====
-- src/auth/passwords.py: the stored hash of a password. PBKDF2 is a parameter, and the salt that the
-- source draws is given.
pub mod Verified
use eu_ai_act_compliance.Prelude.{
  ℕ, String, Bool, true, false, List, ◌<◌, Option, none, some, str_eq, not, if◌then◌else◌, ◌+s◌,
  ◌≡◌, All,
}
use eu_ai_act_compliance.Result.{value_error, Exception, Result, ok, err, ◌>>=◌}
use eu_ai_act_compliance.Builtins.Decimal.{ℤ, pos, str_int, int_of}
use eu_ai_act_compliance.Builtins.Digest.{compare_digest, is_value_error}
use eu_ai_act_compliance.Builtins.Hex.{hex, fromhex}
use eu_ai_act_compliance.Builtins.Hex.RoundTrip.{Bytes}
use eu_ai_act_compliance.Builtins.Split.{split, four_of}

pub record Pbkdf2 : Type 0 where
  -- `hashlib.pbkdf2_hmac("sha256", password.encode(), salt, iterations)`
  pub pbkdf2_hmac : (password : String) (salt : List ℕ) (iterations : ℤ) → Result (List ℕ)
  pub digest-Bytes :
      (password : String) (salt : List ℕ) (iterations : ℤ) {digest : List ℕ}
      → pbkdf2_hmac password salt iterations ≡ ok digest
      → Bytes digest
  -- the digit that a character above 127 stands for
  pub unicode_digit : ℕ → Option ℕ

abbrev pub algorithm : String
algorithm = "pbkdf2_sha256"

abbrev pub iterations_default : ℤ
iterations_default = pos 600_000

-- `f"{ALGORITHM}${iterations}${salt.hex()}${digest.hex()}"`
unfoldable pub stored_form : (iterations salt digest : String) → String
stored_form iterations salt digest =
    algorithm +s String.◌∷◌ "$" (iterations +s String.◌∷◌ "$" (salt +s String.◌∷◌ "$" digest))

or_value_error {ℓ} : {A : Type ℓ} → Option A → Result A
or_value_error none = err (value_error "malformed")
or_value_error (some a) = ok a

module _ (hashing : Pbkdf2) where
  unfoldable pub hash_password :
      (salt : List ℕ) (password : String) (iterations : ℤ) → Result String
  unfolding stored_form
  hash_password salt password iterations = do
    digest ← hashing.pbkdf2_hmac password salt iterations
    printed ← str_int iterations
    ok (stored_form printed (hex salt) (hex digest))

  digest_of : (password iterations salt_hex : String) → Result (List ℕ)
  unfolding or_value_error
  digest_of password iterations salt_hex = do
    salt ← or_value_error (fromhex salt_hex)
    rounds ← or_value_error (int_of hashing.unicode_digit iterations)
    hashing.pbkdf2_hmac password salt rounds

  with_expected : (expected_hex : String) → Result (List ℕ) → Result (Option (List ℕ × String))
  with_expected expected_hex (err e) = err e
  with_expected expected_hex (ok digest) = ok (some (digest, expected_hex))

  -- The `try` block: `none` where it returns False, else the digest and the expected one.
  recompute :
      (password : String) → String × String × String × String → Result (Option (List ℕ × String))
  unfolding digest_of with_expected
  recompute password (name, iterations, salt_hex, expected_hex) =
      if str_eq name algorithm
      then with_expected expected_hex (digest_of password iterations salt_hex)
      else ok none

  compare_with : Result (Option (List ℕ × String)) → Result Bool
  compare_with (ok none) = ok false
  compare_with (ok (some (digest, expected_hex))) = compare_digest (hex digest) expected_hex
  compare_with (err e) = if is_value_error e then ok false else err e

  unfoldable pub verify_password : (password stored : String) → Result Bool
  unfolding recompute compare_with or_value_error
  verify_password password stored =
      compare_with (or_value_error (four_of (split "$" stored)) >>= recompute password)
