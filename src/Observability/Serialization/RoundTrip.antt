-- ===== src/Observability/Serialization/RoundTrip.antt =====
-- src/observability/serialization.py: each record is read back from its dictionary.
use eu_ai_act_compliance.Prelude.{String, List, [], ◌∷◌, map, Option, none, some, ◌≡◌, refl}
use eu_ai_act_compliance.Result.{Result, ok, traverse}
use eu_ai_act_compliance.Schemas.Enums.Category
use eu_ai_act_compliance.Schemas.Enums.EvidenceStatus
use eu_ai_act_compliance.Obligations.{Obligation}
use eu_ai_act_compliance.Gaps.{Gap}
use eu_ai_act_compliance.Review.{
  ReviewTrigger, ReviewFlag, trigger_value, insufficient, low_confidence,
  high_impact_prohibited_practice, high_impact_high_risk, evidence_gap, contradiction_detected,
}
use eu_ai_act_compliance.Observability.Instrumentation.{LlmCallRecord}
use eu_ai_act_compliance.Observability.Serialization.{
  Dict, IsoFormat, optional_text, as_optional_text, obligation_to_dict, obligation_from_dict,
  gap_to_dict, gap_from_dict, trigger_from_value, review_flag_to_dict, review_flag_from_dict,
  llm_call_record_to_dict, llm_call_record_from_dict,
}

pub obligation_round_trip : (o : Obligation) → obligation_from_dict (obligation_to_dict o) ≡ ok o
unfolding obligation_from_dict obligation_to_dict
obligation_round_trip o = rw (Category.from_value-value o.triggered_by) refl

pub gap_round_trip : (g : Gap) → gap_from_dict (gap_to_dict g) ≡ ok g
unfolding gap_from_dict gap_to_dict
gap_round_trip g = rw (EvidenceStatus.from_value-value g.evidence_status) refl

trigger_from_value-value : (t : ReviewTrigger) → trigger_from_value (trigger_value t) ≡ ok t
unfolding trigger_from_value
trigger_from_value-value insufficient = refl
trigger_from_value-value low_confidence = refl
trigger_from_value-value high_impact_prohibited_practice = refl
trigger_from_value-value high_impact_high_risk = refl
trigger_from_value-value evidence_gap = refl
trigger_from_value-value contradiction_detected = refl

pub review_flag_round_trip : (f : ReviewFlag) → review_flag_from_dict (review_flag_to_dict f) ≡ ok f
unfolding review_flag_from_dict review_flag_to_dict
review_flag_round_trip f = rw (trigger_from_value-value f.trigger) refl

as_optional_text-optional_text : (o : Option String) → as_optional_text (optional_text o) ≡ ok o
unfolding as_optional_text optional_text
as_optional_text-optional_text none = refl
as_optional_text-optional_text (some s) = refl

pub llm_call_record_round_trip :
    (iso : IsoFormat) (c : LlmCallRecord)
    → llm_call_record_from_dict iso (llm_call_record_to_dict iso c) ≡ ok c
unfolding llm_call_record_from_dict llm_call_record_to_dict
llm_call_record_round_trip iso c =
    rw (iso.fromisoformat-isoformat c.timestamp, as_optional_text-optional_text c.error) refl

-- A comprehension that undoes another.
pub traverse-map :
    {A : Type 0} (to_dict : A → Dict) (from_dict : Dict → Result A)
    → ((a : A) → from_dict (to_dict a) ≡ ok a)
    → (xs : List A) → traverse from_dict (map to_dict xs) ≡ ok xs
unfolding traverse
traverse-map to_dict from_dict h [] = refl
traverse-map to_dict from_dict h (x ∷ xs) = rw (h x, traverse-map to_dict from_dict h xs) refl
