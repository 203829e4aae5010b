-- ===== src/Schemas/Enums/Dimension.antt =====
-- `EvidenceDimension` of schemas/enums.py.
use eu_ai_act_compliance.Prelude.{
  ℕ, String, Bool, List, [], ◌∷◌, ◌≡◌, ◌↔◌, refl, arith, ◌==◌ as nat_eq,
}
use eu_ai_act_compliance.Result.{Result, ok}
use eu_ai_act_compliance.Schemas.Enums.Lookup.{by_value}

pub data EvidenceDimension : Type 0 where
  relevance completeness specificity currency traceability consistency sufficiency :
      EvidenceDimension

-- the members, in the order of their definition
abbrev pub members : List EvidenceDimension
members =
    relevance ∷ completeness ∷ specificity ∷ currency ∷ traceability ∷ consistency ∷ sufficiency
    ∷ []

-- `member.value`
unfoldable pub value : EvidenceDimension → String
value relevance = "relevance"
value completeness = "completeness"
value specificity = "specificity"
value currency = "currency"
value traceability = "traceability"
value consistency = "consistency"
value sufficiency = "sufficiency"

abbrev index : EvidenceDimension → ℕ
index relevance = 0
index completeness = 1
index specificity = 2
index currency = 3
index traceability = 4
index consistency = 5
index sufficiency = 6

abbrev pub eq : EvidenceDimension → EvidenceDimension → Bool
eq a b = nat_eq (index a) (index b)

-- Calling the class with a value: `EvidenceDimension(text)`.
unfoldable pub from_value : String → Result EvidenceDimension
unfolding by_value value
from_value text = by_value value members text

pub from_value-value : (m : EvidenceDimension) → from_value (value m) ≡ ok m
unfolding from_value
from_value-value relevance = refl
from_value-value completeness = refl
from_value-value specificity = refl
from_value-value currency = refl
from_value-value traceability = refl
from_value-value consistency = refl
from_value-value sufficiency = refl

pub eq_iff : (a b : EvidenceDimension) → (eq a b ≡ Bool.true) ↔ (a ≡ b)
eq_iff a b = ground arith
