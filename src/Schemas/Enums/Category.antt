-- ===== src/Schemas/Enums/Category.antt =====
-- `ClassificationCategory` of schemas/enums.py.
use eu_ai_act_compliance.Prelude.{
  ℕ, String, Bool, List, [], ◌∷◌, ◌≡◌, ◌↔◌, refl, arith, ◌==◌ as nat_eq,
}
use eu_ai_act_compliance.Result.{Result, ok}
use eu_ai_act_compliance.Schemas.Enums.Lookup.{by_value}

pub data ClassificationCategory : Type 0 where
  scope prohibited_practices high_risk gpai transparency : ClassificationCategory

-- the members, in the order of their definition
abbrev pub members : List ClassificationCategory
members = scope ∷ prohibited_practices ∷ high_risk ∷ gpai ∷ transparency ∷ []

-- `member.value`
unfoldable pub value : ClassificationCategory → String
value scope = "scope"
value prohibited_practices = "prohibited_practices"
value high_risk = "high_risk"
value gpai = "gpai"
value transparency = "transparency"

abbrev index : ClassificationCategory → ℕ
index scope = 0
index prohibited_practices = 1
index high_risk = 2
index gpai = 3
index transparency = 4

abbrev pub eq : ClassificationCategory → ClassificationCategory → Bool
eq a b = nat_eq (index a) (index b)

-- Calling the class with a value: `ClassificationCategory(text)`.
unfoldable pub from_value : String → Result ClassificationCategory
unfolding by_value value
from_value text = by_value value members text

pub from_value-value : (m : ClassificationCategory) → from_value (value m) ≡ ok m
unfolding from_value
from_value-value scope = refl
from_value-value prohibited_practices = refl
from_value-value high_risk = refl
from_value-value gpai = refl
from_value-value transparency = refl

pub eq_iff : (a b : ClassificationCategory) → (eq a b ≡ Bool.true) ↔ (a ≡ b)
eq_iff a b = ground arith
