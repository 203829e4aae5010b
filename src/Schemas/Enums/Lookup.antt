-- ===== src/Schemas/Enums/Lookup.antt =====
-- The look-up of an enumeration's member by its value.
use eu_ai_act_compliance.Prelude.{String, List, [], ◌∷◌, str_eq, if◌then◌else◌, ◌+s◌}
use eu_ai_act_compliance.Result.{value_error, Result, ok, err}

unfoldable pub by_value : {A : Type 0} → (A → String) → List A → String → Result A
by_value value [] text = err (value_error (text +s " is not a valid value"))
by_value value (m ∷ ms) text = if str_eq (value m) text then ok m else by_value value ms text
