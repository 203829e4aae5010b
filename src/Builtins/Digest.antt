-- ===== src/Builtins/Digest.antt =====
-- `hmac.compare_digest(a, b)` on two texts, and the ValueErrors among the exceptions.
pub mod Ascii
use Prim.Native.Char.{code}
use eu_ai_act_compliance.Prelude.{String, Bool, true, false, ◌&&◌, ltb, str_eq, if◌then◌else◌}
use eu_ai_act_compliance.Result.{
  Exception, value_error, validation_error, weak_password_error, type_error, Result, ok, err,
}

unfoldable pub is_ascii : String → Bool
is_ascii String.[] = true
is_ascii (String.◌∷◌ c s) = ltb (code c) 128 && is_ascii s

-- It takes texts of ASCII characters only.
unfoldable pub compare_digest : String → String → Result Bool
unfolding is_ascii
compare_digest a b =
    if is_ascii a && is_ascii b
    then ok (str_eq a b)
    else err (type_error "comparing strings with non-ASCII characters is not supported")

-- `isinstance(e, ValueError)`
unfoldable pub is_value_error : Exception → Bool
is_value_error (value_error message) = true
is_value_error (validation_error message) = true
is_value_error (weak_password_error message) = true
is_value_error e = false
