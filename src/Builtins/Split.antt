-- ===== src/Builtins/Split.antt =====
-- `text.split(sep)` and `text.rsplit(sep, maxsplit)` for a separator of one character, and the
-- unpacking of the parts.
pub mod Parts
use Prim.Native.Char.{Char, code}
use eu_ai_act_compliance.Prelude.{
  ℕ, zero, suc, String, Bool, true, false, List, [], ◌∷◌, ◌++◌, Option, none, some, ◌==◌, ◌≢◌,
  if◌then◌else◌,
}

module _ (sep : Char) where
  extend : Char → List String → List String
  extend c [] = []
  extend c (part ∷ parts) = String.◌∷◌ c part ∷ parts

  unfoldable pub split : String → List String
  unfolding extend
  split String.[] = "" ∷ []
  split (String.◌∷◌ c s) =
      let parts = split s in if code c == code sep then "" ∷ parts else extend c parts

  at_separator : Char → String → Option (String × String)
  at_separator c s = if code c == code sep then some ("", s) else none

  -- The text before the last separator and the text behind it.
  unfoldable pub last_cut : String → Option (String × String)
  unfolding at_separator
  last_cut String.[] = none
  last_cut (String.◌∷◌ c s) = elim (last_cut s) [
    | some (before, behind) ↦ some (String.◌∷◌ c before, behind)
    | none ↦ at_separator c s
  ]

  unfoldable pub rsplit : String → (maxsplit : ℕ) → List String
  unfolding last_cut
  rsplit s zero = s ∷ []
  rsplit s (suc maxsplit) = elim (last_cut s) [
    | none ↦ s ∷ []
    | some (before, behind) ↦ rsplit before maxsplit ++ (behind ∷ [])
  ]

  -- The text does not hold the separator.
  abbrev pub Lacks : String → Type 0
  Lacks String.[] = Unit
  Lacks (String.◌∷◌ c s) = (code c ≢ code sep) × Lacks s

-- `a, b, c = parts`; `none` is the ValueError of another number of parts
unfoldable pub three_of : List String → Option (String × String × String)
three_of (a ∷ b ∷ c ∷ []) = some (a, b, c)
three_of parts = none

-- `a, b, c, d = parts`
unfoldable pub four_of : List String → Option (String × String × String × String)
four_of (a ∷ b ∷ c ∷ d ∷ []) = some (a, b, c, d)
four_of parts = none
