-- ===== src/Builtins/Hex/RoundTrip.antt =====
-- `fromhex` reads back what `hex` wrote, and no separator occurs in it.
use Prim.Native.Char.{Char, code}
use eu_ai_act_compliance.Prelude.{
  ℕ, ◌+◌, ◌*◌, ◌/◌, ◌%◌, ◌<◌, Bool, true, false, not, ◌&&◌, ◌||◌, ltb, String, List, [], ◌∷◌,
  Option, none, some, ◌==◌, ◌≡◌, refl, ap, ◌∙◌, arith, All, all_below, all_below_sound, ==_iff, leb,
}
use eu_ai_act_compliance.Builtins.Decimal.{digit_char}
use eu_ai_act_compliance.Builtins.Digest.{is_ascii}
use eu_ai_act_compliance.Builtins.Split.{Lacks}
use eu_ai_act_compliance.Builtins.Hex.{hex_char, hex, hex_value, is_ascii_space, fromhex}

abbrev pub Bytes : List ℕ → Type 0
Bytes = All (λ b. b < 256)

abbrev is_value : Option ℕ → ℕ → Bool
is_value none n = false
is_value (some m) n = m == n

is_value-eq : (o : Option ℕ) (n : ℕ) → is_value o n ≡ true → o ≡ some n
is_value-eq none n h = cc
is_value-eq (some m) n h = ap some ((==_iff m n).0 h)

abbrev is_ascii_word : ℕ → Bool
is_ascii_word c = (leb b'0' c && leb c b'9') || (leb b'a' c && leb c b'z')

hex_table :
    all_below 16 (λ d.
      is_value (hex_value (code (hex_char d))) d
      && not (is_ascii_space (code (hex_char d)))
      && is_ascii_word (code (hex_char d)))
    ≡ true
unfolding hex_value hex_char is_ascii_space digit_char
hex_table = refl

module _ (d : ℕ) (h : d < 16) where
  in_table :
      (is_value (hex_value (code (hex_char d))) d ≡ true)
      × (is_ascii_space (code (hex_char d)) ≡ false)
      × (is_ascii_word (code (hex_char d)) ≡ true)
  in_table =
      let t =
        all_below_sound 16
          (λ d.
            is_value (hex_value (code (hex_char d))) d
            && not (is_ascii_space (code (hex_char d)))
            && is_ascii_word (code (hex_char d)))
          d hex_table h in
      (ground arith, ground arith, ground arith)

  hex_value-hex_char : hex_value (code (hex_char d)) ≡ some d
  hex_value-hex_char = is_value-eq _ d in_table.0

fromhex-pair :
    (hi lo : ℕ) (s : String) {bytes : List ℕ}
    → hi < 16
    → lo < 16
    → fromhex s ≡ some bytes
    → fromhex (String.◌∷◌ (hex_char hi) (String.◌∷◌ (hex_char lo) s))
      ≡ some ((hi * 16 + lo) ∷ bytes)
unfolding fromhex
fromhex-pair hi lo s h k e =
    rw ((in_table hi h).1, hex_value-hex_char hi h, hex_value-hex_char lo k, e) refl

-- Bytes are read back from their hexadecimal print.
pub fromhex-hex : (bytes : List ℕ) → Bytes bytes → fromhex (hex bytes) ≡ some bytes
unfolding hex
fromhex-hex [] h = unfold fromhex in refl
fromhex-hex (b ∷ bytes) (small, h) =
    fromhex-pair (b / 16) (b % 16) (hex bytes) (omega arith) (omega arith) (fromhex-hex bytes h)
    ∙ ap (λ n. some (n ∷ bytes)) (let e : b / 16 * 16 + b % 16 ≡ b = omega arith in e)

-- A hexadecimal print holds no character but digits and small letters.
pub hex-Lacks :
    (sep : Char) (bytes : List ℕ)
    → is_ascii_word (code sep) ≡ false
    → Bytes bytes
    → Lacks sep (hex bytes)
unfolding hex
hex-Lacks sep [] other h = tt
hex-Lacks sep (b ∷ bytes) other (small, h) =
    let high = (in_table (b / 16) (omega arith)).2 in
    let low = (in_table (b % 16) (omega arith)).2 in
    (
      λ e. (let z = rw e at high in cc),
      (λ e. (let z = rw e at low in cc), hex-Lacks sep bytes other h),
    )

word-lt : (c : ℕ) → is_ascii_word c ≡ true → ltb c 128 ≡ true
word-lt c h = ground arith

pub hex-is_ascii : (bytes : List ℕ) → Bytes bytes → is_ascii (hex bytes) ≡ true
unfolding is_ascii hex
hex-is_ascii [] h = refl
hex-is_ascii (b ∷ bytes) (small, h) =
    let high = word-lt (code (hex_char (b / 16))) (in_table (b / 16) (omega arith)).2 in
    let low = word-lt (code (hex_char (b % 16))) (in_table (b % 16) (omega arith)).2 in
    rw (high, low, hex-is_ascii bytes h) refl
