-- ===== src/Gaps/Coverage.antt =====
-- Which obligations are gaps.
use mathlib.Core.List.{mem-map, mem-map_of_mem}
use mathlib.Core.Logic.{∥∥₁_map}
use eu_ai_act_compliance.Prelude.{
  ◌+◌, String, true, false, Option, none, some, List, [], ◌∷◌, ◌++◌, Mem, length, filter, map, not,
  mem-filter_of_mem, mem_of_mem-filter, test_of_mem-filter, ◌≡◌, ◌↔◌, refl, arith, ap, ◌∙◌, inl,
  inr, Bool-cases, Option-cases, str_eq_iff,
}
use eu_ai_act_compliance.Obligations.{Obligation}
use eu_ai_act_compliance.Schemas.Enums.EvidenceStatus
use eu_ai_act_compliance.Schemas.Enums.EvidenceStatus.{
  EvidenceStatus, compliant, insufficient_evidence,
}
use eu_ai_act_compliance.Schemas.Evidence.{EvidenceAssessment}
use eu_ai_act_compliance.Gaps.{Gap, assessment_for, is_compliant, gap_of, compute_gaps}

-- An assessment of the key that no later assessment of that key replaces.
pub record LastFor (key : String) (xs : List EvidenceAssessment) (a : EvidenceAssessment)
    : Type 0 where
  pub before : List EvidenceAssessment
  pub after : List EvidenceAssessment
  pub split : xs ≡ before ++ a ∷ after
  pub of_key : a.requirement_key ≡ key
  pub not_replaced : assessment_for key after ≡ none

assessment_for-some :
    (key : String) (xs : List EvidenceAssessment) (a : EvidenceAssessment)
    → assessment_for key xs ≡ some a
    → LastFor key xs a
unfolding assessment_for
assessment_for-some key [] a h = cc
assessment_for-some key (x ∷ xs) a h = elim (Option-cases (assessment_for key xs)) [
  | inr (b, later) ↦
      let e : b ≡ a = ground arith in
      let r = assessment_for-some key xs a (later ∙ ap some e) in
      record {
        before = x ∷ r.before;
        after = r.after;
        split = ap (λ (l : List EvidenceAssessment). x ∷ l) r.split;
        of_key = r.of_key;
        not_replaced = r.not_replaced;
      }
  | inl gone ↦
      let e : x ≡ a = ground arith in
      record {
        before = [];
        after = xs;
        split = ap (λ (y : EvidenceAssessment). y ∷ xs) e;
        of_key = (str_eq_iff a.requirement_key key).0 (rw (← e) (ground arith));
        not_replaced = gone;
      }
]

abbrev pub assessment_of : List EvidenceAssessment → Obligation → Option EvidenceAssessment
assessment_of assessments o = assessment_for o.requirement_key assessments

assessment_for-append :
    (key : String) (before : List EvidenceAssessment) (a : EvidenceAssessment)
    (after : List EvidenceAssessment)
    → a.requirement_key ≡ key
    → assessment_for key after ≡ none
    → assessment_for key (before ++ a ∷ after) ≡ some a
unfolding assessment_for
assessment_for-append key [] a after e h = ground (arith, (str_eq_iff a.requirement_key key).1 e)
assessment_for-append key (x ∷ xs) a after e h = rw (assessment_for-append key xs a after e h)

-- The last assessment of the obligation says COMPLIANT.
pub record IsMet (assessments : List EvidenceAssessment) (o : Obligation) : Type 0 where
  pub assessment : EvidenceAssessment
  pub last : LastFor o.requirement_key assessments assessment
  pub says : assessment.status ≡ compliant

pub is_compliant_iff :
    (assessments : List EvidenceAssessment) (o : Obligation)
    → (is_compliant (assessment_of assessments o) ≡ true) ↔ IsMet assessments o
is_compliant_iff assessments o = (
  λ h. met (assessment_of assessments o) refl h,
  λ m. rw (
    m.last.split,
    assessment_for-append o.requirement_key m.last.before m.assessment m.last.after m.last.of_key
        m.last.not_replaced,
    m.says,
  ),
)
  where
    met :
        (found : Option EvidenceAssessment)
        → assessment_of assessments o ≡ found
        → is_compliant found ≡ true
        → IsMet assessments o
    met none e h = cc
    met (some a) e h = record {
      assessment = a;
      last = assessment_for-some o.requirement_key assessments a e;
      says = (EvidenceStatus.eq_iff a.status compliant).0 h;
    }

compute_gaps-eq :
    (obligations : List Obligation) (assessments : List EvidenceAssessment)
    → compute_gaps obligations assessments
      ≡ map
          (λ o. gap_of o (assessment_of assessments o))
          (filter (λ o. not (is_compliant (assessment_of assessments o))) obligations)
unfolding compute_gaps
compute_gaps-eq [] assessments = refl
compute_gaps-eq (o ∷ rest) assessments =
    elim (Bool-cases (is_compliant (assessment_of assessments o))) [
      | inl q ↦ rw (q, compute_gaps-eq rest assessments)
      | inr q ↦ rw (q, compute_gaps-eq rest assessments)
    ]

-- An obligation whose last assessment does not say COMPLIANT, or that has none, is a gap.
pub gap_unless_met :
    (obligations : List Obligation) (assessments : List EvidenceAssessment) (o : Obligation)
    → Mem o obligations
    → ¬ IsMet assessments o
    → Mem (gap_of o (assessment_of assessments o)) (compute_gaps obligations assessments)
gap_unless_met obligations assessments o m unmet = rw (compute_gaps-eq obligations assessments) (
    mem-map_of_mem (λ p. gap_of p (assessment_of assessments p))
      (mem-filter_of_mem _ obligations m
        (rw (not_true (λ h. unmet ((is_compliant_iff assessments o).0 h))))))
  where
    not_true :
        ¬ (is_compliant (assessment_of assessments o) ≡ true)
        → is_compliant (assessment_of assessments o) ≡ false
    not_true never = elim (Bool-cases (is_compliant (assessment_of assessments o))) [
      | inl q ↦ absurd (never q)
      | inr q ↦ q
    ]

-- Every gap repeats an obligation of the list that is not met.
pub unmet_of_gap :
    (obligations : List Obligation) (assessments : List EvidenceAssessment) (g : Gap)
    → Mem g (compute_gaps obligations assessments)
    → ∥ (
        (o : Obligation) × Mem o obligations
        × (¬ IsMet assessments o)
        × (gap_of o (assessment_of assessments o) ≡ g)) ∥₁
unmet_of_gap obligations assessments g m =
    ∥∥₁_map (mem-map.0 (rw (compute_gaps-eq obligations assessments) at m)) λ (o, at, e). (
      o,
      mem_of_mem-filter _ obligations at,
      (λ met.
          clash o
            (test_of_mem-filter
              (λ (p : Obligation). not (is_compliant (assessment_of assessments p))) obligations at)
            ((is_compliant_iff assessments o).1 met)),
      e,
    )
  where
    clash :
        (o : Obligation)
        → not (is_compliant (assessment_of assessments o)) ≡ true
        → is_compliant (assessment_of assessments o) ≡ true
        → ⊥
    clash o h k = ground arith

-- Every obligation is either compliant or one gap.
pub length-compute_gaps :
    (obligations : List Obligation) (assessments : List EvidenceAssessment)
    → length (compute_gaps obligations assessments)
        + length (filter (λ o. is_compliant (assessment_of assessments o)) obligations)
      ≡ length obligations
unfolding compute_gaps
length-compute_gaps [] assessments = omega arith
length-compute_gaps (o ∷ rest) assessments = ground (arith, length-compute_gaps rest assessments)
