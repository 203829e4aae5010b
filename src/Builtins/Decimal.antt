-- ===== src/Builtins/Decimal.antt =====
-- `str(n)` and `int(text)`. `int` reads the decimal digits of every script; which number a character
-- above 127 stands for, if it is a digit, is given by Unicode's database. The interpreter refuses
-- to convert more than 4300 digits, either way.
pub mod RoundTrip
use Prim.Native.Char.{Char, code}
use Prim.Native.String.{count}
use eu_ai_act_compliance.Prelude.{
  ℕ, zero, suc, ◌+◌, ◌-◌, ◌*◌, ◌/◌, ◌%◌, Bool, true, false, not, ◌&&◌, ◌||◌, String, Option, none,
  some, ltb, leb, ◌==◌, if◌then◌else◌, ◌+s◌,
}
use eu_ai_act_compliance.Result.{value_error, Result, ok, err}

-- An integer: `negsuc n` is -(n + 1).
pub data ℤ : Type 0 where
  pos : ℕ → ℤ
  negsuc : ℕ → ℤ

-- a - b
abbrev pub sub_ℕ : ℕ → ℕ → ℤ
sub_ℕ a b = if leb b a then pos (a - b) else negsuc (b - a - 1)

-- a + n for an integer `a` and a number `n`
abbrev pub add_ℕ : ℤ → ℕ → ℤ
add_ℕ (pos a) n = pos (a + n)
add_ℕ (negsuc a) n = sub_ℕ n (suc a)

abbrev pub max_str_digits : ℕ
max_str_digits = 4300

unfoldable pub digit_char : ℕ → Char
digit_char d =
    if d == 0
    then "0"
    else if d == 1
    then "1"
    else if d == 2
    then "2"
    else if d == 3
    then "3"
    else if d == 4
    then "4"
    else if d == 5
    then "5"
    else if d == 6
    then "6"
    else if d == 7
    then "7"
    else if d == 8
    then "8"
    else "9"

-- The digits of `n`, in front of `out`; a number has fewer digits than the fuel `suc n`.
unfoldable pub digits : ℕ → ℕ → String → String
digits zero n out = out
digits (suc fuel) n out =
    let rest = digits fuel (n / 10) (String.◌∷◌ (digit_char (n % 10)) out) in
    if ltb n 10 then String.◌∷◌ (digit_char n) out else rest

unfoldable pub decimal : ℕ → String
unfolding digits digit_char
decimal n = digits (suc n) n ""

within_limit : String → String → Result String
within_limit sign printed =
    if ltb max_str_digits (count printed)
    then err (value_error "Exceeds the limit (4300 digits) for integer string conversion")
    else ok (sign +s printed)

-- `str(z)`
unfoldable pub str_int : ℤ → Result String
unfolding within_limit decimal
str_int (pos n) = within_limit "" (decimal n)
str_int (negsuc n) = within_limit "-" (decimal (suc n))

-- The white space that `int` skips: that of C, and Unicode's above 127.
unfoldable pub is_int_space : ℕ → Bool
is_int_space c =
    (leb 9 c && leb c 13)
    || (c == 32)
    || (c == 0x85)
    || (c == 0xa0)
    || (c == 0x1680)
    || (leb 0x2000 c && leb c 0x200a)
    || (c == 0x2028)
    || (c == 0x2029)
    || (c == 0x202f)
    || (c == 0x205f)
    || (c == 0x3000)

all_spaces : String → Bool
unfolding is_int_space
all_spaces String.[] = true
all_spaces (String.◌∷◌ c s) = is_int_space (code c) && all_spaces s

skip_spaces : String → String
unfolding is_int_space
skip_spaces String.[] = ""
skip_spaces (String.◌∷◌ c s) = if is_int_space (code c) then skip_spaces s else String.◌∷◌ c s

module _ (unicode_digit : ℕ → Option ℕ) where
  unfoldable pub digit_value : ℕ → Option ℕ
  digit_value c =
      if leb b'0' c && leb c b'9'
      then some (c - b'0')
      else if leb 128 c
      then unicode_digit c
      else none

  -- One underscore may stand between two digits. `after` says that a digit was just read.
  unfoldable pub scan : String → (after : Bool) → ℕ → Option ℕ
  unfolding digit_value all_spaces
  scan String.[] after n = if after then some n else none
  scan (String.◌∷◌ c s) after n = elim (digit_value (code c)) [
    | some d ↦ scan s true (n * 10 + d)
    | none ↦ elim (after && (code c == b'_')) [
      | true ↦ scan s false n
      | false ↦ if after && all_spaces (String.◌∷◌ c s) then some n else none
    ]
  ]

  digit_count : String → ℕ
  digit_count String.[] = 0
  digit_count (String.◌∷◌ c s) = elim (digit_value (code c)) [
    | some d ↦ suc (digit_count s)
    | none ↦ digit_count s
  ]

  magnitude : String → Option ℕ
  unfolding scan digit_count
  magnitude s = if ltb max_str_digits (digit_count s) then none else scan s false 0

  negated : Option ℕ → Option ℤ
  negated none = none
  negated (some zero) = some (pos 0)
  negated (some (suc n)) = some (negsuc n)

  unsigned : Option ℕ → Option ℤ
  unsigned none = none
  unsigned (some n) = some (pos n)

  signed : String → Option ℤ
  unfolding magnitude negated unsigned
  signed String.[] = none
  signed (String.◌∷◌ c s) =
      if code c == b'-'
      then negated (magnitude s)
      else if code c == b'+'
      then unsigned (magnitude s)
      else unsigned (magnitude (String.◌∷◌ c s))

  -- `int(text)`; `none` is its ValueError
  unfoldable pub int_of : String → Option ℤ
  unfolding signed skip_spaces
  int_of text = signed (skip_spaces text)
