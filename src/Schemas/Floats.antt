-- ===== src/Schemas/Floats.antt =====
-- The `float` values that the program compares. A finite float is a whole number of units of
-- 2^-1074, the smallest positive double, so comparison is exact. -0.0 is the same value as 0.0.
use eu_ai_act_compliance.Prelude.{ℕ, ◌*◌, ◌^◌, Bool, true, false, ltb, leb}

-- `negative n` is -(n + 1) units.
pub data Float : Type 0 where
  nonnegative : ℕ → Float
  negative : ℕ → Float
  infinity minus_infinity nan : Float

-- `a < b`
unfoldable pub lt : Float → Float → Bool
lt nan b = false
lt (nonnegative a) (nonnegative b) = ltb a b
lt (nonnegative a) infinity = true
lt (negative a) (negative b) = ltb b a
lt (negative a) (nonnegative b) = true
lt (negative a) infinity = true
lt minus_infinity (nonnegative b) = true
lt minus_infinity (negative b) = true
lt minus_infinity infinity = true
lt a b = false

-- `a <= b`
unfoldable pub le : Float → Float → Bool
le (nonnegative a) (nonnegative b) = leb a b
le (nonnegative a) infinity = true
le (negative a) (negative b) = leb b a
le (negative a) (nonnegative b) = true
le (negative a) infinity = true
le minus_infinity minus_infinity = true
le minus_infinity (nonnegative b) = true
le minus_infinity (negative b) = true
le minus_infinity infinity = true
le infinity infinity = true
le a b = false

-- 0.0
abbrev pub zero : Float
zero = nonnegative 0

-- 1.0
unfoldable pub one : Float
one = nonnegative (2 ^ 1074)

-- 0.6, that is 5404319552844595 * 2^-53
unfoldable pub three_fifths : Float
three_fifths = nonnegative (5404319552844595 * 2 ^ 1021)
