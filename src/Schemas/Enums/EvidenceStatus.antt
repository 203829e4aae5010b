-- ===== src/Schemas/Enums/EvidenceStatus.antt =====
-- `EvidenceStatus` of schemas/enums.py.
use eu_ai_act_compliance.Prelude.{
  ℕ, String, Bool, List, [], ◌∷◌, ◌≡◌, ◌↔◌, refl, arith, ◌==◌ as nat_eq,
}
use eu_ai_act_compliance.Result.{Result, ok}
use eu_ai_act_compliance.Schemas.Enums.Lookup.{by_value}

pub data EvidenceStatus : Type 0 where
  compliant partially_compliant insufficient_evidence non_compliant not_applicable : EvidenceStatus

-- the members, in the order of their definition
abbrev pub members : List EvidenceStatus
members =
    compliant ∷ partially_compliant ∷ insufficient_evidence ∷ non_compliant ∷ not_applicable ∷ []

-- `member.value`
unfoldable pub value : EvidenceStatus → String
value compliant = "COMPLIANT"
value partially_compliant = "PARTIALLY_COMPLIANT"
value insufficient_evidence = "INSUFFICIENT_EVIDENCE"
value non_compliant = "NON_COMPLIANT"
value not_applicable = "NOT_APPLICABLE"

abbrev index : EvidenceStatus → ℕ
index compliant = 0
index partially_compliant = 1
index insufficient_evidence = 2
index non_compliant = 3
index not_applicable = 4

abbrev pub eq : EvidenceStatus → EvidenceStatus → Bool
eq a b = nat_eq (index a) (index b)

-- Calling the class with a value: `EvidenceStatus(text)`.
unfoldable pub from_value : String → Result EvidenceStatus
unfolding by_value value
from_value text = by_value value members text

pub from_value-value : (m : EvidenceStatus) → from_value (value m) ≡ ok m
unfolding from_value
from_value-value compliant = refl
from_value-value partially_compliant = refl
from_value-value insufficient_evidence = refl
from_value-value non_compliant = refl
from_value-value not_applicable = refl

pub eq_iff : (a b : EvidenceStatus) → (eq a b ≡ Bool.true) ↔ (a ≡ b)
eq_iff a b = ground arith
