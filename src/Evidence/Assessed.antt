-- ===== src/Evidence/Assessed.antt =====
-- What `assess_evidence` guarantees.
use eu_ai_act_compliance.Prelude.{
  String, ◌≢◌, ◌⊎◌, is_nonempty, strip-white_space, IsWhiteSpace, true, false, List, [], ◌∷◌, ◌≡◌,
  refl, arith, sym, subst, inl, inr, Bool-cases, str_eq, str_eq_iff,
}
use eu_ai_act_compliance.Result.{structured_output_error, Result, ok, err, >>=-eq-ok}
use eu_ai_act_compliance.Exec.{bind-eq-ok}
use eu_ai_act_compliance.Rendering.{Rendering}
use eu_ai_act_compliance.Llm.{LlmCallMetadata, LlmClient}
use eu_ai_act_compliance.Llm.Guarantees.{IsSound}
use eu_ai_act_compliance.Obligations.{Obligation}
use eu_ai_act_compliance.Schemas.Enums.EvidenceStatus.{compliant}
use eu_ai_act_compliance.Schemas.Evidence.{EvidenceAssessment, validate}
use eu_ai_act_compliance.Schemas.Sufficiency.{IsValid, validate-IsValid}
use eu_ai_act_compliance.Evidence.{
  insufficient, is_blank, answered, ask, assess_evidence, evidence_of, assess_all_obligations,
}

-- The text that stands for a key: that of its first entry, and the empty one without an entry.
abbrev pub IsTextFor : String → List (String × String) → String → Type 0
IsTextFor key [] text = text ≡ ""
IsTextFor key ((k, t) ∷ rest) text =
    ((k ≡ key) × (text ≡ t)) ⊎ ((k ≢ key) × IsTextFor key rest text)

-- What holds of an assessment of an obligation: it is about that obligation and well formed, and it
-- says COMPLIANT only of a text that holds more than white space.
pub record IsFaithful (obligation : Obligation) (text : String) (a : EvidenceAssessment)
    : Type 0 where
  pub same_key : a.requirement_key ≡ obligation.requirement_key
  pub well_formed : IsValid a
  pub backed : IsWhiteSpace text → a.status ≢ compliant

insufficient-eq-ok :
    (obligation : Obligation) (rationale text : String) (a : EvidenceAssessment)
    → insufficient obligation rationale ≡ ok a
    → IsFaithful obligation text a
unfolding insufficient
insufficient-eq-ok obligation rationale text a h =
    let (e, valid) = validate-IsValid _ a h in
    subst (IsFaithful obligation text) (sym e)
      (record { same_key = refl; well_formed = valid; backed = λ _ e. cc })

is_blank-IsWhiteSpace : (text : String) → IsWhiteSpace text → is_blank text ≡ true
unfolding is_blank
is_blank-IsWhiteSpace text blank = elim (Bool-cases (is_nonempty text)) [
  | inl q ↦ rw (q, strip-white_space text blank) refl
  | inr q ↦ rw q refl
]

evidence_of-IsTextFor :
    (key : String) (evidence : List (String × String))
    → IsTextFor key evidence (evidence_of key evidence)
unfolding evidence_of
evidence_of-IsTextFor key [] = refl
evidence_of-IsTextFor key ((k, t) ∷ rest) = elim (Bool-cases (str_eq k key)) [
  | inl q ↦ rw q (inl ((str_eq_iff k key).0 q, refl))
  | inr q ↦
      rw q
        (inr ((λ e. let p = (str_eq_iff k key).1 e in absurd (cc)), evidence_of-IsTextFor key rest))
]

module _ {S : Type 0} (client : LlmClient S) (rendering : Rendering)
    (decode : String → Result EvidenceAssessment) where
  answered-IsFaithful :
      (obligation : Obligation) (text : String) (r : Result (EvidenceAssessment × LlmCallMetadata))
      (a : EvidenceAssessment)
      → is_blank text ≡ false
      → ((c : EvidenceAssessment) (meta : LlmCallMetadata) → r ≡ ok (c, meta) → IsValid c)
      → answered client rendering decode obligation r ≡ ok a
      → IsFaithful obligation text a
  unfolding answered
  answered-IsFaithful obligation text (ok (c, meta)) a given valid h =
      elim (Bool-cases (str_eq c.requirement_key obligation.requirement_key)) [
        | inr other ↦ insufficient-eq-ok obligation _ text a (rw other at h)
        | inl same ↦
            let e : c ≡ a = ground arith in
            subst (IsFaithful obligation text) e (record {
              same_key = (str_eq_iff _ _).0 same;
              well_formed = valid c meta refl;
              backed = λ blank. absurd (let k = is_blank-IsWhiteSpace text blank in cc);
            })
      ]
  answered-IsFaithful obligation text (err (structured_output_error m raw)) a given valid h =
      insufficient-eq-ok obligation _ text a h
  answered-IsFaithful obligation text (err e) a given valid h = cc

  validated-IsValid :
      IsSound client
      → (obligation : Obligation) (text : String) (s : S) (c : EvidenceAssessment)
        (meta : LlmCallMetadata)
      → (ask client rendering decode obligation text s).0 ≡ ok (c, meta)
      → IsValid c
  validated-IsValid sound obligation text s c meta h =
      let (raw, e) = sound.validated _ _ _ _ _ s c meta h in
      let (parsed, _, checked) = >>=-eq-ok (decode raw) validate e in
      let (same, valid) = validate-IsValid parsed c checked in rw same valid

  -- Whatever the model answers, the assessment of an obligation is about that obligation, covers the
  -- seven dimensions once each, and says COMPLIANT only where the evidence is more than white space and
  -- every dimension is met.
  pub assess_evidence-IsFaithful :
      IsSound client
      → (obligation : Obligation) (text : String) (s : S) (a : EvidenceAssessment)
      → (assess_evidence client rendering decode obligation text s).0 ≡ ok a
      → IsFaithful obligation text a
  unfolding assess_evidence
  assess_evidence-IsFaithful sound obligation text s a h = elim (Bool-cases (is_blank text)) [
    | inl blank ↦ insufficient-eq-ok obligation _ text a (rw blank at h)
    | inr given ↦
        answered-IsFaithful obligation text _ a given (validated-IsValid sound obligation text s)
          (rw given at h)
  ]

  -- One faithful assessment for each obligation, in order.
  abbrev pub AllFaithful :
      List Obligation → List (String × String) → List EvidenceAssessment → Type 0
  AllFaithful [] evidence [] = Unit
  AllFaithful (o ∷ os) evidence (a ∷ as') =
      ((text : String) × IsTextFor o.requirement_key evidence text × IsFaithful o text a)
      × AllFaithful os evidence as'
  AllFaithful _ evidence _ = ⊥

  -- Whatever the model answers, the assessments are one for each obligation, in their order: each has the
  -- key of its obligation, covers the seven dimensions once each, is COMPLIANT only where every dimension is
  -- met, and is not COMPLIANT where the text that the evidence holds for the key is missing, empty or nothing
  -- but white space.
  pub assess_all_obligations-AllFaithful :
      IsSound client
      → (obligations : List Obligation) (evidence : List (String × String)) (s : S)
        (xs : List EvidenceAssessment)
      → (assess_all_obligations client rendering decode obligations evidence s).0 ≡ ok xs
      → AllFaithful obligations evidence xs
  unfolding assess_all_obligations
  assess_all_obligations-AllFaithful sound [] evidence s xs h =
      let e : [] ≡ xs = cc in subst (AllFaithful [] evidence) e tt
  assess_all_obligations-AllFaithful sound (o ∷ os) evidence s xs h =
      let text = evidence_of o.requirement_key evidence in
      let (a, ea, rest) = bind-eq-ok (assess_evidence client rendering decode o text) _ s h in
      let (more, em, last) =
        bind-eq-ok (assess_all_obligations client rendering decode os evidence) _ _ rest in
      let e : a ∷ more ≡ xs = cc in
      subst (AllFaithful (o ∷ os) evidence) e (
        (
          text,
          evidence_of-IsTextFor o.requirement_key evidence,
          assess_evidence-IsFaithful sound o text s a ea,
        ),
        assess_all_obligations-AllFaithful sound os evidence _ more em,
      )
