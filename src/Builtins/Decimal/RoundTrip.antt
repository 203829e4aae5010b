-- ===== src/Builtins/Decimal/RoundTrip.antt =====
-- `int` reads back what `str` printed.
use Prim.Native.Char.{Char, code}
use Prim.Native.String.{count}
use Prim.Native.String.append
use Prim.Native.String.count
use native.Mathlib.Nat.{zero-add}
use eu_ai_act_compliance.Prelude.{
  ℕ, zero, suc, ◌+◌, ◌*◌, ◌/◌, ◌%◌, ◌≤◌, ◌<◌, Bool, true, false, not, ◌&&◌, ◌||◌, String, Option,
  some, ltb, leb, ◌==◌, ◌+s◌, ◌≡◌, ◌≢◌, refl, arith, Bool-cases, inl, inr, ge→ltb, sym, ltb→lt,
  ltb→ge, ap, ◌∙◌, all_below, all_below_sound, ==_iff,
}
use eu_ai_act_compliance.Result.{ok}
use eu_ai_act_compliance.Builtins.Split.{Lacks}
use eu_ai_act_compliance.Builtins.Decimal.{
  ℤ, pos, negsuc, max_str_digits, digit_char, digits, decimal, within_limit, str_int, is_int_space,
  skip_spaces, digit_value, scan, digit_count, magnitude, negated, unsigned, signed, int_of,
}

digit_table : all_below 10 (λ d. code (digit_char d) == b'0' + d) ≡ true
unfolding digit_char
digit_table = refl

code-digit_char : (d : ℕ) → d < 10 → code (digit_char d) ≡ b'0' + d
code-digit_char d h =
    (==_iff _ _).0 (all_below_sound 10 (λ d. code (digit_char d) == b'0' + d) d digit_table h)

-- A print starts with a digit.
digits-head :
    (fuel n : ℕ) (out : String)
    → n < fuel
    → (d : ℕ) × (rest : String) × (d < 10) × (digits fuel n out ≡ String.◌∷◌ (digit_char d) rest)
unfolding digits
digits-head zero n out h = absurd (omega arith)
digits-head (suc fuel) n out h = elim (Bool-cases (ltb n 10)) [
  | inl q ↦ (n, out, ltb→lt n 10 q, rw q refl)
  | inr q ↦
      let (d, rest, small, e) =
        digits-head fuel (n / 10) (String.◌∷◌ (digit_char (n % 10)) out) (ground arith) in
      (d, rest, small, rw q e)
]

decimal-head :
    (n : ℕ) → (d : ℕ) × (rest : String) × (d < 10) × (decimal n ≡ String.◌∷◌ (digit_char d) rest)
unfolding decimal
decimal-head n = digits-head (suc n) n "" (omega arith)

not_space : all_below 10 (λ d. not (is_int_space (b'0' + d))) ≡ true
unfolding is_int_space
not_space = refl

skip_spaces-digit :
    (d : ℕ) (s : String)
    → d < 10
    → skip_spaces (String.◌∷◌ (digit_char d) s) ≡ String.◌∷◌ (digit_char d) s
unfolding skip_spaces
skip_spaces-digit d s h =
    let t = all_below_sound 10 (λ d. not (is_int_space (b'0' + d))) d not_space h in
    let q : is_int_space (b'0' + d) ≡ false = ground arith in rw (code-digit_char d h, q) refl

within_limit-eq-ok :
    (sign printed : String) {s : String}
    → within_limit sign printed ≡ ok s
    → (count printed ≤ max_str_digits) × (s ≡ sign +s printed)
unfolding within_limit
within_limit-eq-ok sign printed h = elim (Bool-cases (ltb max_str_digits (count printed))) [
  | inl q ↦ absurd (let z = rw q at h in cc)
  | inr q ↦ (ltb→ge _ _ q, (let z = rw q at h in cc))
]

minus-append : (s : String) → "-" +s s ≡ String.◌∷◌ "-" s
minus-append s = append.cons "-" "" s ∙ ap (String.◌∷◌ "-") (append.nil s)

-- The characters of a print.
abbrev pub is_print_char : ℕ → Bool
is_print_char c = (c == b'-') || (leb b'0' c && leb c b'9')

module _ (sep : Char) (other : is_print_char (code sep) ≡ false) where
  digit_char-other : (d : ℕ) → d < 10 → code (digit_char d) ≢ code sep
  digit_char-other d h e = let k = code-digit_char d h in absurd (ground arith)

  digits-Lacks :
      (fuel n : ℕ) (out : String) → n < fuel → Lacks sep out → Lacks sep (digits fuel n out)
  unfolding digits
  digits-Lacks zero n out h k = absurd (omega arith)
  digits-Lacks (suc fuel) n out h k = elim (Bool-cases (ltb n 10)) [
    | inl q ↦ rw q (digit_char-other n (ltb→lt n 10 q), k)
    | inr q ↦ rw q (
        digits-Lacks fuel (n / 10) (String.◌∷◌ (digit_char (n % 10)) out) (ground arith)
          (digit_char-other (n % 10) (omega arith), k))
  ]

  decimal-Lacks : (n : ℕ) → Lacks sep (decimal n)
  unfolding decimal
  decimal-Lacks n = digits-Lacks (suc n) n "" (omega arith) tt

  minus-other : b'-' ≢ code sep
  minus-other e = absurd (ground arith)

  pub str_int-Lacks : (z : ℤ) {s : String} → str_int z ≡ ok s → Lacks sep s
  unfolding str_int
  str_int-Lacks (pos n) h =
      let (few, e) = within_limit-eq-ok "" (decimal n) h in
      rw (e ∙ append.nil (decimal n)) (decimal-Lacks n)
  str_int-Lacks (negsuc n) h =
      let (few, e) = within_limit-eq-ok "-" (decimal (suc n)) h in
      rw (e ∙ minus-append (decimal (suc n))) (minus-other, decimal-Lacks (suc n))

module _ (unicode_digit : ℕ → Option ℕ) where
  digit_value-digit_char :
      (d : ℕ) → d < 10 → digit_value unicode_digit (code (digit_char d)) ≡ some d
  unfolding digit_value
  digit_value-digit_char d h = rw (code-digit_char d h) (ground arith)

  scan-digit_char :
      (d : ℕ) (s : String) (after : Bool) (n : ℕ)
      → d < 10
      → scan unicode_digit (String.◌∷◌ (digit_char d) s) after n
        ≡ scan unicode_digit s true (n * 10 + d)
  unfolding scan
  scan-digit_char d s after n h = rw (digit_value-digit_char d h, scan) refl

  -- Reading the digits of `n` and then `out` is reading `out` behind `n`.
  scan-digits :
      (fuel n : ℕ) (out : String) (after : Bool)
      → n < fuel
      → scan unicode_digit (digits fuel n out) after 0 ≡ scan unicode_digit out true n
  unfolding digits
  scan-digits zero n out after h = absurd (omega arith)
  scan-digits (suc fuel) n out after h = elim (Bool-cases (ltb n 10)) [
    | inl q ↦ rw q (
        scan-digit_char n out after 0 (ltb→lt n 10 q)
        ∙ ap (scan unicode_digit out true) (zero-add n))
    | inr q ↦ rw q (
        scan-digits fuel (n / 10) (String.◌∷◌ (digit_char (n % 10)) out) after (ground arith)
        ∙ scan-digit_char (n % 10) out true (n / 10) (omega arith)
        ∙ ap (scan unicode_digit out true) (let e : n / 10 * 10 + n % 10 ≡ n = omega arith in e))
  ]

  digit_count-le-count : (s : String) → digit_count unicode_digit s ≤ count s
  unfolding digit_count
  digit_count-le-count String.[] = omega arith
  digit_count-le-count (String.◌∷◌ c s) = ground (arith, digit_count-le-count s, count.cons c s)

  magnitude-decimal :
      (n : ℕ) → count (decimal n) ≤ max_str_digits → magnitude unicode_digit (decimal n) ≡ some n
  unfolding magnitude
  magnitude-decimal n h =
      let few : ltb max_str_digits (digit_count unicode_digit (decimal n)) ≡ false =
        ge→ltb _ _ (omega (arith, digit_count-le-count (decimal n))) in
      rw few (unfold decimal in scan-digits (suc n) n "" false (omega arith))

  signed-digit :
      (d : ℕ) (s : String)
      → d < 10
      → signed unicode_digit (String.◌∷◌ (digit_char d) s)
        ≡ unsigned unicode_digit (magnitude unicode_digit (String.◌∷◌ (digit_char d) s))
  unfolding signed
  signed-digit d s h =
      let no_minus : (b'0' + d == b'-') ≡ false = ground arith in
      let no_plus : (b'0' + d == b'+') ≡ false = ground arith in
      rw (code-digit_char d h, no_minus, no_plus) refl

  signed-minus :
      (s : String)
      → signed unicode_digit (skip_spaces (String.◌∷◌ "-" s))
        ≡ negated unicode_digit (magnitude unicode_digit s)
  unfolding signed skip_spaces is_int_space
  signed-minus s = refl

  -- A decimal print is read back, with either sign.
  pub int_of-str_int : (z : ℤ) {s : String} → str_int z ≡ ok s → int_of unicode_digit s ≡ some z
  unfolding str_int int_of unsigned negated
  int_of-str_int (pos n) {s} h =
      let (few, e) = within_limit-eq-ok "" (decimal n) h in
      let (d, rest, small, starts) = decimal-head n in
      let printed : s ≡ String.◌∷◌ (digit_char d) rest = e ∙ append.nil (decimal n) ∙ starts in
      rw (printed, skip_spaces-digit d rest small)
        (signed-digit d rest small
          ∙ ap (λ t. unsigned unicode_digit (magnitude unicode_digit t)) (sym starts)
          ∙ ap (unsigned unicode_digit) (magnitude-decimal n few))
  int_of-str_int (negsuc n) {s} h =
      let (few, e) = within_limit-eq-ok "-" (decimal (suc n)) h in
      rw (e ∙ minus-append (decimal (suc n)), signed-minus)
        (ap (negated unicode_digit) (magnitude-decimal (suc n) few))
