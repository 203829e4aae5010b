-- ===== src/Observability/AssessmentLog/Stored.antt =====
-- src/observability/assessment_log.py: what was recorded is what is reconstructed, for its tenant only.
use mathlib.Core.Logic.Or
use native.Mathlib.Nat.{ℕ_set}
use mathlib.Core.List.{mem-cons, mem-cons_self, not-mem-nil, mem-append, mem-append_right}
use eu_ai_act_compliance.Prelude.{
  String, false, List, [], ◌∷◌, ◌++◌, map, none, some, ◌≡◌, ◌≢◌, refl, ap, sym, ◌∙◌, Mem, str_eq,
  str_eq_iff, String_set, first, contains, Option-cases, inl, inr,
}
use eu_ai_act_compliance.Result.{Result, ok, traverse}
use eu_ai_act_compliance.Calendar.{DateTime}
use eu_ai_act_compliance.Schemas.Facts
use eu_ai_act_compliance.Schemas.Facts.{ExtractedFacts}
use eu_ai_act_compliance.Schemas.Classification.{validate_result}
use eu_ai_act_compliance.Schemas.Evidence
use eu_ai_act_compliance.Schemas.Evidence.{EvidenceAssessment}
use eu_ai_act_compliance.Persistence.Engine.{Engine, first_of_mem, mem_of_first}
use eu_ai_act_compliance.Persistence.Models.{AssessmentRecord}
use eu_ai_act_compliance.Persistence.Tenancy.{
  SessionInfo, is_cross_tenant, bound_tenant_id, tenant_scoped_tablenames, stamp_and_verify_writes,
  stamp_new, stamp, verify_all, is_tenant_scoped, tenant_id_of, set_tenant_id,
}
use eu_ai_act_compliance.Persistence.Tenancy.Reads.{select_where-isolated}
use eu_ai_act_compliance.Observability.Retention.{assessment_records}
use eu_ai_act_compliance.Observability.Serialization.{
  Dict, obligation_to_dict, obligation_from_dict, gap_to_dict, gap_from_dict, review_flag_to_dict,
  review_flag_from_dict, llm_call_record_to_dict, llm_call_record_from_dict,
}
use eu_ai_act_compliance.Observability.Serialization.RoundTrip.{
  obligation_round_trip, gap_round_trip, review_flag_round_trip, llm_call_record_round_trip,
  traverse-map,
}
use eu_ai_act_compliance.Observability.AssessmentLog.{
  Codec, Assessment, ReconstructedAssessment, sum_of, record_of, flushed, insert_flushed,
  record_assessment, facts_validate_json, classification_validate_json, evidence_validate_json,
  list_from_json, reconstructed, reconstruct_found, reconstruct_assessment,
}

AssessmentRecord-set : IsSet AssessmentRecord
AssessmentRecord-set = hlevel (String_set, ℕ_set)

-- The parsers read what the printers write of the parts of an assessment.
pub record ReadsBack (codec : Codec) (a : Assessment) : Type 0 where
  pub facts : codec.facts_parse (codec.facts_dump a.facts) ≡ ok a.facts
  pub classification :
      codec.classification_parse (codec.classification_dump a.classification) ≡ ok a.classification
  pub evidence :
      codec.evidence_parse (codec.evidence_dump a.evidence_assessments) ≡ ok a.evidence_assessments
  pub obligations :
      let ds = map obligation_to_dict a.obligations in codec.loads (codec.dumps ds) ≡ ok ds
  pub gaps : let ds = map gap_to_dict a.gaps in codec.loads (codec.dumps ds) ≡ ok ds
  pub review_flags :
      let ds = map review_flag_to_dict a.review_flags in codec.loads (codec.dumps ds) ≡ ok ds
  pub llm_calls :
      let ds = map (llm_call_record_to_dict codec.iso) a.llm_calls in
      codec.loads (codec.dumps ds) ≡ ok ds

-- The parts of an assessment that Pydantic validates.
pub record IsValid (a : Assessment) : Type 0 where
  pub facts : Facts.validate a.facts ≡ ok a.facts
  pub classification : validate_result a.classification ≡ ok a.classification
  pub evidence : traverse Evidence.validate a.evidence_assessments ≡ ok a.evidence_assessments

module _ (codec : Codec) (id : String) (now : DateTime) (a : Assessment) where
  -- Everything that is read back: what was given, and the sums over the calls.
  abbrev pub whole : ReconstructedAssessment
  whole = record {
    assessment_id = id;
    created_at = now;
    assessment = a;
    total_input_tokens = sum_of (λ c. c.input_tokens) a.llm_calls;
    total_output_tokens = sum_of (λ c. c.output_tokens) a.llm_calls;
    total_latency_ms = sum_of (λ c. c.latency_ms) a.llm_calls;
  }

  list_from_json-map :
      {A : Type 0} (to_dict : A → Dict) (from_dict : Dict → Result A)
      → ((x : A) → from_dict (to_dict x) ≡ ok x)
      → (xs : List A) → codec.loads (codec.dumps (map to_dict xs)) ≡ ok (map to_dict xs)
      → list_from_json codec from_dict (codec.dumps (map to_dict xs)) ≡ ok xs
  unfolding list_from_json
  list_from_json-map to_dict from_dict h xs back = rw back (traverse-map to_dict from_dict h xs)

  -- The stored row, once a tenant owns it.
  abbrev pub owned : String → AssessmentRecord
  owned t = record (record_of codec id now a) { tenant_id = some t }

  reconstructed-owned :
      (t : String) → ReadsBack codec a → IsValid a → reconstructed codec (owned t) ≡ ok whole
  unfolding reconstructed record_of facts_validate_json classification_validate_json
      evidence_validate_json
  reconstructed-owned t back valid =
      rw
        (
          back.facts,
          valid.facts,
          back.classification,
          valid.classification,
          list_from_json-map obligation_to_dict obligation_from_dict obligation_round_trip
              a.obligations back.obligations,
          back.evidence,
          valid.evidence,
          list_from_json-map gap_to_dict gap_from_dict gap_round_trip a.gaps back.gaps,
          list_from_json-map review_flag_to_dict review_flag_from_dict review_flag_round_trip
              a.review_flags back.review_flags,
          list_from_json-map (llm_call_record_to_dict codec.iso)
              (llm_call_record_from_dict codec.iso) (llm_call_record_round_trip codec.iso)
              a.llm_calls back.llm_calls,
        )
        refl

  module _ (info : SessionInfo) {t : String} (guarded : is_cross_tenant info ≡ false)
      (bound : bound_tenant_id info ≡ some t) (table : List AssessmentRecord) where
    pub record_assessment-adds :
        record_assessment codec info id now a table ≡ (ok id, table ++ (owned t ∷ []))
    unfolding record_assessment insert_flushed flushed record_of stamp_and_verify_writes stamp_new
        stamp verify_all is_tenant_scoped tenant_id_of set_tenant_id
    record_assessment-adds = rw (guarded, bound) refl

    module _ (engine : Engine) (unused : (r : AssessmentRecord) → Mem r table → r.id ≢ id) where
      only : (r : AssessmentRecord) → Mem r (table ++ (owned t ∷ [])) → r.id ≡ id → r ≡ owned t
      unfolding record_of
      only r m e =
          Or.elim (AssessmentRecord-set _ _) (mem-append.0 m) (λ old. absurd (unused r old e))
            (λ last.
              Or.elim (AssessmentRecord-set _ _) (mem-cons.0 last) (λ p. p)
                (λ z. absurd (not-mem-nil z)))

      pub reconstruct-own :
          ReadsBack codec a
          → IsValid a
          → reconstruct_assessment codec engine info id (table ++ (owned t ∷ [])) ≡ ok (some whole)
      unfolding reconstruct_assessment assessment_records contains tenant_scoped_tablenames
          reconstruct_found
      reconstruct-own back valid =
          let (found, q, answers) =
            select_where-isolated engine assessment_records info (λ r. str_eq r.id id)
              (table ++ (owned t ∷ [])) refl refl guarded bound in
          let m = (answers (owned t)).1 (
            mem-append_right table mem-cons_self,
            unfold record_of in (str_eq_iff id id).1 refl,
            refl,
          ) in
          let (b, k) = first_of_mem found m in
          let (stored, test, own) = (answers b).0 (mem_of_first found k) in
          let same = only b stored ((str_eq_iff b.id id).0 test) in
          rw (q, k, same, reconstructed-owned t back valid) refl

      -- On a session of another tenant.
      reconstruct-other :
          (other : SessionInfo) {t' : String}
          → is_cross_tenant other ≡ false
          → bound_tenant_id other ≡ some t'
          → t' ≢ t
          → reconstruct_assessment codec engine other id (table ++ (owned t ∷ [])) ≡ ok none
      unfolding reconstruct_assessment assessment_records contains tenant_scoped_tablenames
          reconstruct_found
      reconstruct-other other {t'} guarded' bound' apart =
          let (found, q, answers) =
            select_where-isolated engine assessment_records other (λ r. str_eq r.id id)
              (table ++ (owned t ∷ [])) refl refl guarded' bound' in
          let none_found : first found ≡ none = elim (Option-cases (first found)) [
            | inl e ↦ e
            | inr (b, k) ↦
                let (stored, test, own) = (answers b).0 (mem_of_first found k) in
                let same = only b stored ((str_eq_iff b.id id).0 test) in
                let theirs : some t ≡ some t' = sym (ap (λ r. r.tenant_id) same) ∙ own in
                absurd (apart (cc))
          ] in
          rw (q, none_found) refl

      -- On a session that is bound to a tenant, an assessment whose parts are valid, and of which the
      -- parsers read what the printers write, is recorded under an id that no row has, and what is
      -- reconstructed from the id is the whole assessment with the sums of its calls' tokens and latencies;
      -- on a session bound to another tenant nothing is found.
      pub reconstruct_assessment-record_assessment :
          ReadsBack codec a
          → IsValid a
          → (other : SessionInfo) {t' : String} → is_cross_tenant other ≡ false
          → bound_tenant_id other ≡ some t'
          → t' ≢ t
          → ((record_assessment codec info id now a table).0 ≡ ok id)
            × (reconstruct_assessment codec engine info id
                  (record_assessment codec info id now a table).1
                ≡ ok (some whole))
            × (reconstruct_assessment codec engine other id
                  (record_assessment codec info id now a table).1
                ≡ ok none)
      reconstruct_assessment-record_assessment back valid other guarded' bound' apart =
          rw record_assessment-adds
            (refl, reconstruct-own back valid, reconstruct-other other guarded' bound' apart)
