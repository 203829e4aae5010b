-- ===== src/Schemas/Enums/Severity.antt =====
-- `IncidentSeverity` of schemas/enums.py.
use eu_ai_act_compliance.Prelude.{
  ℕ, String, Bool, List, [], ◌∷◌, ◌≡◌, ◌↔◌, refl, arith, ◌==◌ as nat_eq,
}
use eu_ai_act_compliance.Result.{Result, ok}
use eu_ai_act_compliance.Schemas.Enums.Lookup.{by_value}

pub data IncidentSeverity : Type 0 where
  death_or_serious_health_harm critical_infrastructure_disruption fundamental_rights_infringement
        property_or_environment_harm widespread_infringement :
      IncidentSeverity

-- the members, in the order of their definition
abbrev pub members : List IncidentSeverity
members =
    death_or_serious_health_harm ∷ critical_infrastructure_disruption
    ∷ fundamental_rights_infringement ∷ property_or_environment_harm ∷ widespread_infringement ∷ []

-- `member.value`
unfoldable pub value : IncidentSeverity → String
value death_or_serious_health_harm = "death_or_serious_health_harm"
value critical_infrastructure_disruption = "critical_infrastructure_disruption"
value fundamental_rights_infringement = "fundamental_rights_infringement"
value property_or_environment_harm = "property_or_environment_harm"
value widespread_infringement = "widespread_infringement"

abbrev index : IncidentSeverity → ℕ
index death_or_serious_health_harm = 0
index critical_infrastructure_disruption = 1
index fundamental_rights_infringement = 2
index property_or_environment_harm = 3
index widespread_infringement = 4

abbrev pub eq : IncidentSeverity → IncidentSeverity → Bool
eq a b = nat_eq (index a) (index b)

-- Calling the class with a value: `IncidentSeverity(text)`.
unfoldable pub from_value : String → Result IncidentSeverity
unfolding by_value value
from_value text = by_value value members text

pub from_value-value : (m : IncidentSeverity) → from_value (value m) ≡ ok m
unfolding from_value
from_value-value death_or_serious_health_harm = refl
from_value-value critical_infrastructure_disruption = refl
from_value-value fundamental_rights_infringement = refl
from_value-value property_or_environment_harm = refl
from_value-value widespread_infringement = refl

pub eq_iff : (a b : IncidentSeverity) → (eq a b ≡ Bool.true) ↔ (a ≡ b)
eq_iff a b = ground arith
