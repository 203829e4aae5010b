-- ===== src/Prelude/Text.antt =====
-- Python's `str`: equality, concatenation, `join`, `strip`, and the lookup of a text in a list.
use Prim.Native.Nat.{ℕ}
use Prim.Native.Char.{code}
use Prim.Native.String.append
pub use Prim.Native.String.{String}
use mathlib.Core.Path.{◌≡◌, refl}
use mathlib.Core.Logic.{◌↔◌}
use mathlib.Core.Bool.{Bool, true, false, ◌&&◌, ◌||◌}
use mathlib.Core.List.{List, [], ◌∷◌}
use text.Mathlib.TextEquality.{eq_iff}
use text.Mathlib.Text.{◌==◌ as text_eq}
pub use text.Mathlib.Text.{starts_with}
use mathlib.Core.HLevel.{hedberg}
use mathlib.Core.Logic.{inl, inr}
use native.Mathlib.Omega.{arith}
use eu_ai_act_compliance.Prelude.Tests.{Bool-cases, leb, ◌==◌, if◌then◌else◌}

-- `a == b` for texts
abbrev pub str_eq : String → String → Bool
str_eq a b = text_eq a b

pub str_eq_iff : (a b : String) → (str_eq a b ≡ true) ↔ (a ≡ b)
str_eq_iff = eq_iff

pub str_eq_refl : (a : String) → str_eq a a ≡ true
str_eq_refl a = (eq_iff a a).1 refl

pub String_set : IsSet String
String_set = hedberg (λ a b. elim (Bool-cases (str_eq a b)) [
  | inl q ↦ Dec.yes ((eq_iff a b).0 q)
  | inr q ↦ Dec.no (λ e. (let k = (eq_iff a b).1 e in absurd (ground arith)))
])

infixr 65 ◌+s◌
-- `a + b` for texts, and the pieces of an f-string
abbrev pub ◌+s◌ : String → String → String
a +s b = Prim.Native.String.◌++◌ a b

-- `bool(s)`
abbrev pub is_nonempty : String → Bool
is_nonempty String.[] = false
is_nonempty (String.◌∷◌ c s) = true

-- `sep.join(items)`
unfoldable pub join : String → List String → String
join sep [] = ""
join sep (x ∷ []) = x
join sep (x ∷ y ∷ ys) = x +s sep +s join sep (y ∷ ys)

-- The characters that `str.isspace` accepts, which are those that `str.strip` removes.
pub is_space : ℕ → Bool
is_space c =
    (leb 9 c && leb c 13)
    || (leb 28 c && leb c 32)
    || (c == 0x85)
    || (c == 0xa0)
    || (c == 0x1680)
    || (leb 0x2000 c && leb c 0x200a)
    || (c == 0x2028)
    || (c == 0x2029)
    || (c == 0x202f)
    || (c == 0x205f)
    || (c == 0x3000)

lstrip : String → String
unfolding is_space
lstrip String.[] = ""
lstrip (String.◌∷◌ c s) = if is_space (code c) then lstrip s else String.◌∷◌ c s

-- One character in front of a text that is already stripped on the right.
rstrip_cons : Prim.Native.Char.Char → String → String
unfolding is_space
rstrip_cons c String.[] = if is_space (code c) then "" else String.◌∷◌ c ""
rstrip_cons c s = String.◌∷◌ c s

rstrip : String → String
unfolding rstrip_cons
rstrip String.[] = ""
rstrip (String.◌∷◌ c s) = rstrip_cons c (rstrip s)

-- `s.strip()`
unfoldable pub strip : String → String
unfolding lstrip rstrip
strip s = rstrip (lstrip s)

-- A text without a character that is no white space.
abbrev pub IsWhiteSpace : String → Type 0
IsWhiteSpace String.[] = Unit
IsWhiteSpace (String.◌∷◌ c s) = (is_space (code c) ≡ true) × IsWhiteSpace s

lstrip-white_space : (s : String) → IsWhiteSpace s → lstrip s ≡ ""
unfolding lstrip
lstrip-white_space String.[] h = refl
lstrip-white_space (String.◌∷◌ c s) h = rw h.0 (lstrip-white_space s h.1)

pub strip-white_space : (s : String) → IsWhiteSpace s → strip s ≡ ""
unfolding strip rstrip
strip-white_space s h = rw (lstrip-white_space s h) refl

-- `key in texts`
unfoldable pub contains : String → List String → Bool
contains key [] = false
contains key (x ∷ xs) = str_eq x key || contains key xs

pub is_nonempty-append : (a b : String) → is_nonempty a ≡ true → is_nonempty (a +s b) ≡ true
is_nonempty-append String.[] b h = cc
is_nonempty-append (String.◌∷◌ c s) b h = rw append.cons
