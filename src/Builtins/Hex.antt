-- ===== src/Builtins/Hex.antt =====
-- `bytes.hex()` and `bytes.fromhex(text)`. A byte is a number below 256.
pub mod RoundTrip
use Prim.Native.Char.{Char, code}
use eu_ai_act_compliance.Prelude.{
  ℕ, ◌+◌, ◌-◌, ◌*◌, ◌/◌, ◌%◌, Bool, true, false, ◌&&◌, ◌||◌, String, List, [], ◌∷◌, Option, none,
  some, leb, ◌==◌, if◌then◌else◌,
}
use eu_ai_act_compliance.Builtins.Decimal.{digit_char}

hex_char : ℕ → Char
unfolding digit_char
hex_char d =
    if leb d 9
    then digit_char d
    else if d == 10
    then "a"
    else if d == 11
    then "b"
    else if d == 12
    then "c"
    else if d == 13
    then "d"
    else if d == 14
    then "e"
    else "f"

unfoldable pub hex : List ℕ → String
unfolding hex_char
hex [] = ""
hex (byte ∷ bytes) =
    String.◌∷◌ (hex_char (byte / 16)) (String.◌∷◌ (hex_char (byte % 16)) (hex bytes))

hex_value : ℕ → Option ℕ
hex_value c =
    if leb b'0' c && leb c b'9'
    then some (c - b'0')
    else if leb b'a' c && leb c b'f'
    then some (c - b'a' + 10)
    else if leb b'A' c && leb c b'F'
    then some (c - b'A' + 10)
    else none

-- the white space that may stand between two bytes
is_ascii_space : ℕ → Bool
is_ascii_space c = (leb 9 c && leb c 13) || (c == 32)

byte_then : Option ℕ → Option ℕ → Option (List ℕ) → Option (List ℕ)
byte_then (some high) (some low) (some bytes) = some ((high * 16 + low) ∷ bytes)
byte_then high low bytes = none

-- `bytes.fromhex(text)`; `none` is its ValueError
unfoldable pub fromhex : String → Option (List ℕ)
unfolding hex_value is_ascii_space byte_then
fromhex String.[] = some []
fromhex (String.◌∷◌ c String.[]) = if is_ascii_space (code c) then some [] else none
fromhex (String.◌∷◌ c (String.◌∷◌ d s)) =
    let skipped = fromhex (String.◌∷◌ d s) in
    let paired = byte_then (hex_value (code c)) (hex_value (code d)) (fromhex s) in
    if is_ascii_space (code c) then skipped else paired
