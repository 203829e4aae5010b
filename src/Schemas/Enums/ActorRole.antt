-- ===== src/Schemas/Enums/ActorRole.antt =====
-- `ActorRole` of schemas/enums.py.
use eu_ai_act_compliance.Prelude.{
  ℕ, String, Bool, List, [], ◌∷◌, ◌≡◌, ◌↔◌, refl, arith, ◌==◌ as nat_eq,
}
use eu_ai_act_compliance.Result.{Result, ok}
use eu_ai_act_compliance.Schemas.Enums.Lookup.{by_value}

pub data ActorRole : Type 0 where
  provider deployer importer distributor any : ActorRole

-- the members, in the order of their definition
abbrev pub members : List ActorRole
members = provider ∷ deployer ∷ importer ∷ distributor ∷ any ∷ []

-- `member.value`
unfoldable pub value : ActorRole → String
value provider = "provider"
value deployer = "deployer"
value importer = "importer"
value distributor = "distributor"
value any = "any"

abbrev index : ActorRole → ℕ
index provider = 0
index deployer = 1
index importer = 2
index distributor = 3
index any = 4

abbrev pub eq : ActorRole → ActorRole → Bool
eq a b = nat_eq (index a) (index b)

-- Calling the class with a value: `ActorRole(text)`.
unfoldable pub from_value : String → Result ActorRole
unfolding by_value value
from_value text = by_value value members text

pub from_value-value : (m : ActorRole) → from_value (value m) ≡ ok m
unfolding from_value
from_value-value provider = refl
from_value-value deployer = refl
from_value-value importer = refl
from_value-value distributor = refl
from_value-value any = refl

pub eq_iff : (a b : ActorRole) → (eq a b ≡ Bool.true) ↔ (a ≡ b)
eq_iff a b = ground arith
