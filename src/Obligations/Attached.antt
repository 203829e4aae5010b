-- ===== src/Obligations/Attached.antt =====
-- Which obligations attach to a classification.
use mathlib.Core.Logic.{∥∥₁_elim, ∥∥₁_map, ∥∥₁_prop}
use mathlib.Core.Logic.Or
use mathlib.Core.List.{
  mem-cons, mem-cons_self, mem-cons_of_mem, mem-append, mem-append_left, mem-append_right,
  not-mem-nil, Mem-prop,
}
use eu_ai_act_compliance.Prelude.{
  String, true, Option, none, some, List, [], ◌∷◌, ◌++◌, Mem, ◌≡◌, ◌↔◌, refl, inl, inr, Bool-cases,
  if◌then◌else◌,
}
use eu_ai_act_compliance.Result.{ok}
use eu_ai_act_compliance.Persistence.Engine.{Engine}
use eu_ai_act_compliance.Legal.Store.{LegalStore}
use eu_ai_act_compliance.Legal.Queries.{RequirementResult, find_requirement_by_key}
use eu_ai_act_compliance.Schemas.Enums.Category.{high_risk, prohibited_practices}
use eu_ai_act_compliance.Schemas.Classification.{
  CategoryClassification, ClassificationResult, for_category, classification_result,
}
use eu_ai_act_compliance.Schemas.Validity.{for_category_lem}
use eu_ai_act_compliance.Obligations.{
  in_triggering_states, high_risk_obligation_keys, Obligation, of_requirement, cease_obligation,
  attach, appended, map_obligations,
}

module _ (engine : Engine) (store : LegalStore) where
  -- An obligation that a high-risk answer brings: a listed key with its current requirement.
  pub record FromHighRisk (keys : List String) (o : Obligation) : Type 0 where
    pub key : String
    pub requirement : RequirementResult
    pub listed : Mem key keys
    pub found : find_requirement_by_key engine store key ≡ some requirement
    pub shown : o ≡ of_requirement requirement

  widen :
      {key : String} {keys : List String} {o : Obligation}
      → FromHighRisk keys o
      → FromHighRisk (key ∷ keys) o
  widen {key} f = record {
    key = f.key;
    requirement = f.requirement;
    listed = mem-cons_of_mem key f.listed;
    found = f.found;
    shown = f.shown;
  }

  attach-FromHighRisk :
      (keys : List String) (o : Obligation)
      → Mem o (attach engine store keys)
      → ∥ FromHighRisk keys o ∥₁
  unfolding attach
  attach-FromHighRisk [] o m = absurd (not-mem-nil m)
  attach-FromHighRisk (key ∷ keys) o m =
      go (find_requirement_by_key engine store key) refl m (attach-FromHighRisk keys o)
    where
      go :
          (r : Option RequirementResult)
          → find_requirement_by_key engine store key ≡ r
          → Mem o (appended engine store r (attach engine store keys))
          → (Mem o (attach engine store keys) → ∥ FromHighRisk keys o ∥₁)
          → ∥ FromHighRisk (key ∷ keys) o ∥₁
      go none e m ih = ∥∥₁_map (ih m) widen
      go (some r) e m ih =
          Or.elim ∥∥₁_prop (mem-cons.0 m)
            (λ same. ∣ record {
              key = key;
              requirement = r;
              listed = mem-cons_self;
              found = e;
              shown = same;
            } ∣₁)
            (λ rest. ∥∥₁_map (ih rest) widen)

  mem-attach :
      (keys : List String) (key : String) (r : RequirementResult)
      → Mem key keys
      → find_requirement_by_key engine store key ≡ some r
      → Mem (of_requirement r) (attach engine store keys)
  unfolding attach
  mem-attach [] key r m e = absurd (not-mem-nil m)
  mem-attach (k ∷ keys) key r m e =
      Or.elim Mem-prop (mem-cons.0 m) (λ same. rw (← same, e) mem-cons_self)
        (λ rest. behind (find_requirement_by_key engine store k) (mem-attach keys key r rest e))
    where
      behind :
          (q : Option RequirementResult)
          → Mem (of_requirement r) (attach engine store keys)
          → Mem (of_requirement r) (appended engine store q (attach engine store keys))
      behind none m = m
      behind (some q) m = mem-cons_of_mem _ m

  -- The two answers that a valid classification holds, and the obligations in their terms.
  map_obligations-eq :
      (c : ClassificationResult) (h p : CategoryClassification)
      → for_category c high_risk ≡ ok h
      → for_category c prohibited_practices ≡ ok p
      → map_obligations engine store c
        ≡ ok (
            let attached =
              if in_triggering_states h.state
              then attach engine store high_risk_obligation_keys
              else [] in
            if in_triggering_states p.state then attached ++ cease_obligation p ∷ [] else attached)
  unfolding map_obligations
  map_obligations-eq c h p eh ep = rw (eh, ep)

  -- What a system owes on its two answers.
  pub data Owed (h p : CategoryClassification) (o : Obligation) : Type 0 where
    high :
        in_triggering_states h.state ≡ true → FromHighRisk high_risk_obligation_keys o → Owed h p o
    cease : in_triggering_states p.state ≡ true → o ≡ cease_obligation p → Owed h p o

  -- A classification that holds every category once has its obligations; nothing raises.
  pub map_obligations_total :
      (c : ClassificationResult)
      → classification_result c.assessments ≡ ok c
      → (os : List Obligation) × (map_obligations engine store c ≡ ok os)
  map_obligations_total c valid =
      let (h, eh, _, _) = for_category_lem c high_risk valid in
      let (p, ep, _, _) = for_category_lem c prohibited_practices valid in
      (_, map_obligations-eq c h p eh ep)

  module _ (c : ClassificationResult) (h p : CategoryClassification)
      (eh : for_category c high_risk ≡ ok h) (ep : for_category c prohibited_practices ≡ ok p)
      (os : List Obligation) (e : map_obligations engine store c ≡ ok os) (o : Obligation) where
    from_high_risk : List Obligation
    from_high_risk =
        if in_triggering_states h.state then attach engine store high_risk_obligation_keys else []

    os-eq : os ≡ (
        if in_triggering_states p.state
        then from_high_risk ++ cease_obligation p ∷ []
        else from_high_risk)
    unfolding from_high_risk
    os-eq = let q = map_obligations-eq c h p eh ep in cc

    mem_high : Mem o from_high_risk → ∥ Owed h p o ∥₁
    unfolding from_high_risk
    mem_high m = elim (Bool-cases (in_triggering_states h.state)) [
      | inl t ↦
          ∥∥₁_map (attach-FromHighRisk high_risk_obligation_keys o (rw t at m)) (λ f. Owed.high t f)
      | inr f ↦ absurd (not-mem-nil (rw f at m))
    ]

    high_mem : Owed h p o → Mem o os
    unfolding from_high_risk
    high_mem (Owed.high t f) =
        let m : Mem o (attach engine store high_risk_obligation_keys) =
          rw f.shown (mem-attach high_risk_obligation_keys f.key f.requirement f.listed f.found) in
        rw (os-eq, t)
          (elim (Bool-cases (in_triggering_states p.state)) [
            | inl u ↦ rw u (mem-append_left _ m)
            | inr u ↦ rw u m
          ])
    high_mem (Owed.cease t same) = rw (os-eq, t, same) (mem-append_right _ mem-cons_self)

    -- The obligations are exactly those that are owed: with a triggering high-risk answer the current
    -- requirement of each listed key, and with a triggering prohibited answer the duty to cease.
    pub map_obligations_iff : Mem o os ↔ ∥ Owed h p o ∥₁
    map_obligations_iff = (
      λ m. elim (Bool-cases (in_triggering_states p.state)) [
        | inl t ↦ Or.elim ∥∥₁_prop (mem-append.0 (rw (os-eq, t) at m)) mem_high (λ last.
            Or.elim ∥∥₁_prop (mem-cons.0 last) (λ same. ∣ Owed.cease t same ∣₁)
              (λ z. absurd (not-mem-nil z)))
        | inr t ↦ mem_high (rw (os-eq, t) at m)
      ],
      λ t. ∥∥₁_elim t Mem-prop high_mem,
    )
