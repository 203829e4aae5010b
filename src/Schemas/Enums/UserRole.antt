-- ===== src/Schemas/Enums/UserRole.antt =====
-- `UserRole` of schemas/enums.py.
use eu_ai_act_compliance.Prelude.{
  ℕ, String, Bool, List, [], ◌∷◌, ◌≡◌, ◌↔◌, refl, arith, ◌==◌ as nat_eq,
}
use eu_ai_act_compliance.Result.{Result, ok}
use eu_ai_act_compliance.Schemas.Enums.Lookup.{by_value}

pub data UserRole : Type 0 where
  admin member viewer : UserRole

-- the members, in the order of their definition
abbrev pub members : List UserRole
members = admin ∷ member ∷ viewer ∷ []

-- `member.value`
unfoldable pub value : UserRole → String
value admin = "admin"
value member = "member"
value viewer = "viewer"

abbrev index : UserRole → ℕ
index admin = 0
index member = 1
index viewer = 2

abbrev pub eq : UserRole → UserRole → Bool
eq a b = nat_eq (index a) (index b)

-- Calling the class with a value: `UserRole(text)`.
unfoldable pub from_value : String → Result UserRole
unfolding by_value value
from_value text = by_value value members text

pub from_value-value : (m : UserRole) → from_value (value m) ≡ ok m
unfolding from_value
from_value-value admin = refl
from_value-value member = refl
from_value-value viewer = refl

pub eq_iff : (a b : UserRole) → (eq a b ≡ Bool.true) ↔ (a ≡ b)
eq_iff a b = ground arith
