-- ===== src/Schemas/Enums/State.antt =====
-- `ClassificationState` of schemas/enums.py.
use eu_ai_act_compliance.Prelude.{
  ℕ, String, Bool, List, [], ◌∷◌, ◌≡◌, ◌↔◌, refl, arith, ◌==◌ as nat_eq,
}
use eu_ai_act_compliance.Result.{Result, ok}
use eu_ai_act_compliance.Schemas.Enums.Lookup.{by_value}

pub data ClassificationState : Type 0 where
  yes_state no_state possibly insufficient_information not_applicable : ClassificationState

-- the members, in the order of their definition
abbrev pub members : List ClassificationState
members = yes_state ∷ no_state ∷ possibly ∷ insufficient_information ∷ not_applicable ∷ []

-- `member.value`
unfoldable pub value : ClassificationState → String
value yes_state = "YES"
value no_state = "NO"
value possibly = "POSSIBLY"
value insufficient_information = "INSUFFICIENT_INFORMATION"
value not_applicable = "NOT_APPLICABLE"

abbrev index : ClassificationState → ℕ
index yes_state = 0
index no_state = 1
index possibly = 2
index insufficient_information = 3
index not_applicable = 4

abbrev pub eq : ClassificationState → ClassificationState → Bool
eq a b = nat_eq (index a) (index b)

-- Calling the class with a value: `ClassificationState(text)`.
unfoldable pub from_value : String → Result ClassificationState
unfolding by_value value
from_value text = by_value value members text

pub from_value-value : (m : ClassificationState) → from_value (value m) ≡ ok m
unfolding from_value
from_value-value yes_state = refl
from_value-value no_state = refl
from_value-value possibly = refl
from_value-value insufficient_information = refl
from_value-value not_applicable = refl

pub eq_iff : (a b : ClassificationState) → (eq a b ≡ Bool.true) ↔ (a ≡ b)
eq_iff a b = ground arith
