-- ===== src/Legal/Queries/Answers.antt =====
-- What the queries answer, whatever order the engine gives the rows in.
use mathlib.Core.Logic.{∥∥₁_elim, ∥∥₁_prop}
use mathlib.Core.List.{mem-map, Mem-prop}
use eu_ai_act_compliance.Prelude.{String, true, Option, none, ◌≡◌, ◌↔◌, arith, Mem, str_eq_iff}
use eu_ai_act_compliance.Calendar.{Date}
use eu_ai_act_compliance.Persistence.Engine.{
  Engine, mem_of_mem-rows, test_of_mem-rows, mem-rows_of_mem,
}
use eu_ai_act_compliance.Persistence.Models.{LegalProvision, Requirement, ApplicabilityCondition}
use eu_ai_act_compliance.Schemas.Enums.ActorRole.{ActorRole}
use eu_ai_act_compliance.Legal.Store.{LegalStore}
use eu_ai_act_compliance.Legal.Queries.{
  RequirementResult, product, to_result, applies, Row, find_requirements,
}
use eu_ai_act_compliance.Legal.Queries.Filters.{
  ForCategory, ForRole, InForceOn, category_filter_iff, role_filter_iff, date_filter_iff,
}
use eu_ai_act_compliance.Legal.Queries.Product.{mem-product, mem_of_mem-product}

module _ (engine : Engine) (store : LegalStore) where
  -- A stored requirement that is not superseded, with its provision and one of its conditions,
  -- where the condition meets every filter.
  pub record Answers (category : Option String) (role : Option ActorRole) (day : Option Date)
      (q : RequirementResult) : Type 0 where
    pub requirement : Requirement
    pub provision : LegalProvision
    pub condition : ApplicabilityCondition
    pub requirement_stored : Mem requirement store.requirements
    pub provision_stored : Mem provision store.legal_provisions
    pub condition_stored : Mem condition store.applicability_conditions
    pub of_requirement : condition.requirement_id ≡ requirement.id
    pub of_provision : provision.id ≡ requirement.primary_provision_id
    pub current : requirement.superseded_by_id ≡ none
    pub for_category : ForCategory category condition
    pub for_role : ForRole role condition
    pub in_force : InForceOn day condition
    pub shown : to_result engine store requirement provision ≡ q

  Answers-of_row :
      (category : Option String) (role : Option ActorRole) (day : Option Date)
      (row : Row engine store) (q : RequirementResult)
      → Mem row (
          product
            (product store.requirements store.legal_provisions)
            store.applicability_conditions)
      → applies engine store category role day row ≡ true
      → to_result engine store row.0.0 row.0.1 ≡ q
      → Answers category role day q
  Answers-of_row category role day ((r, p), c) q m h e =
      let (mrp, mc) = mem_of_mem-product (r, p) c _ _ m in
      let (mr, mp) = mem_of_mem-product r p _ _ mrp in
      record {
        requirement = r;
        provision = p;
        condition = c;
        requirement_stored = mr;
        provision_stored = mp;
        condition_stored = mc;
        of_requirement = (str_eq_iff c.requirement_id r.id).0 (ground arith);
        of_provision = (str_eq_iff p.id r.primary_provision_id).0 (ground arith);
        current = ground arith;
        for_category = (category_filter_iff category c).0 (ground arith);
        for_role = (role_filter_iff role c).0 (ground arith);
        in_force = (date_filter_iff day c).0 (ground arith);
        shown = e;
      }

  applies_of_Answers :
      {category : Option String} {role : Option ActorRole} {day : Option Date}
      {q : RequirementResult}
      → (a : Answers category role day q)
      → applies engine store category role day ((a.requirement, a.provision), a.condition) ≡ true
  applies_of_Answers a = ground (
    arith,
    (str_eq_iff a.condition.requirement_id a.requirement.id).1 a.of_requirement,
    (str_eq_iff a.provision.id a.requirement.primary_provision_id).1 a.of_provision,
    a.current,
    (category_filter_iff _ a.condition).1 a.for_category,
    (role_filter_iff _ a.condition).1 a.for_role,
    (date_filter_iff _ a.condition).1 a.in_force,
  )

  -- A query returns a result exactly when the tables hold it: that of a requirement that is not superseded,
  -- with its provision, for which some condition has the category that is asked for, names the role that is
  -- asked for or ActorRole.ANY, and has a period that the day lies in; what is not asked for is free. A
  -- condition without a role, or without a category, answers no query that asks for one.
  pub find_requirements_iff :
      (category : Option String) (role : Option ActorRole) (day : Option Date)
      (q : RequirementResult)
      → Mem q (find_requirements engine store category role day) ↔ ∥ Answers category role day q ∥₁
  unfolding find_requirements
  find_requirements_iff category role day q = (
    λ m. ∥∥₁_elim (mem-map.0 m) ∥∥₁_prop (λ (row, at, e).
        ∣ Answers-of_row category role day row q
          (mem_of_mem-rows engine (applies engine store category role day) _ at)
          (test_of_mem-rows engine (applies engine store category role day) _ at) e ∣₁),
    λ t. ∥∥₁_elim t Mem-prop (λ a. mem-map.1 ∣ (
      ((a.requirement, a.provision), a.condition),
      mem-rows_of_mem engine (applies engine store category role day) _
          (mem-product _ _ _ _ (mem-product _ _ _ _ a.requirement_stored a.provision_stored)
            a.condition_stored)
          (applies_of_Answers a),
      a.shown,
    ) ∣₁),
  )
