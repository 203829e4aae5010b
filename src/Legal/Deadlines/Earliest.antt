-- ===== src/Legal/Deadlines/Earliest.antt =====
-- src/legal/deadlines.py, `_next_applicable_date`: the first of the days that qualify.
use mathlib.Core.Logic.{∥∥₁_elim, ∥∥₁_prop}
use mathlib.Core.Logic.Or
use mathlib.Core.Bool.{Bool-set}
use mathlib.Core.List.{mem-map, mem-cons, not-mem-nil, Mem-prop}
use mathlib.Core.List.Perm
use eu_ai_act_compliance.Prelude.{
  String, Bool, true, false, List, [], ◌∷◌, map, any, none, some, ◌≡◌, ◌↔◌, inl, inr, refl, arith,
  Mem, All, str_eq_iff, is_empty, first, Bool-cases, is_empty-eq-nil,
}
use eu_ai_act_compliance.Prelude.Sort.{IsSorted}
use eu_ai_act_compliance.Calendar.{Date, lt}
use eu_ai_act_compliance.Calendar.Order.{lt-IsStrictWeak}
use eu_ai_act_compliance.Persistence.Engine.{
  Engine, mem_of_mem-rows, test_of_mem-rows, mem-rows_of_mem, mem_of_first, first_of_mem,
}
use eu_ai_act_compliance.Persistence.Models.{ApplicabilityCondition, Requirement}
use eu_ai_act_compliance.Legal.Store.{LegalStore}
use eu_ai_act_compliance.Legal.Queries.{product, is_current}
use eu_ai_act_compliance.Legal.Queries.Product.{mem-product, mem_of_mem-product}
use eu_ai_act_compliance.Legal.Deadlines.{not_yet_applicable, next_applicable_date}

lt_irrefl : (d : Date) → lt d d ≡ false
unfolding lt
lt_irrefl d = ground arith

first_least :
    (days : List Date) {day other : Date}
    → IsSorted lt days
    → first days ≡ some day
    → Mem other days
    → lt other day ≡ false
first_least [] s h m = cc
first_least (d ∷ rest) {day} {other} (before, s) h m =
    let d-day : d ≡ day = cc in
    rw (← d-day) (
      Or.elim (Bool-set _ _) (mem-cons.0 m) (λ e. rw e (lt_irrefl d))
        (λ l. all_of_Mem rest before l))
  where
    all_of_Mem : (xs : List Date) → All (λ y. lt y d ≡ false) xs → Mem other xs → lt other d ≡ false
    all_of_Mem [] h m = absurd (not-mem-nil m)
    all_of_Mem (x ∷ xs) (h, hs) m =
        Or.elim (Bool-set _ _) (mem-cons.0 m) (λ e. rw e h) (λ l. all_of_Mem xs hs l)

module _ (engine : Engine) (like_prefix : (prefix key : String) → Bool) (store : LegalStore)
    (prefixes : List String) (after : Date) where
  -- A condition of a current requirement that one of the prefixes names, which starts after `after`.
  pub record Qualifies (c : ApplicabilityCondition) : Type 0 where
    pub requirement : Requirement
    pub requirement_stored : Mem requirement store.requirements
    pub condition_stored : Mem c store.applicability_conditions
    pub of_requirement : requirement.id ≡ c.requirement_id
    pub current : is_current requirement ≡ true
    pub later : lt after c.temporal_start ≡ true
    pub named : any (λ p. like_prefix p requirement.requirement_key) prefixes ≡ true

  starts : List Date
  starts =
      map (λ (c, r). c.temporal_start)
        (engine.rows (ApplicabilityCondition × Requirement)
          (not_yet_applicable engine like_prefix store prefixes after)
          (product store.applicability_conditions store.requirements))

  starts_iff :
      (day : Date)
      → Mem day starts
        ↔ ∥ ((c : ApplicabilityCondition) × Qualifies c × (c.temporal_start ≡ day)) ∥₁
  unfolding starts not_yet_applicable
  starts_iff day = (
    (λ m. ∥∥₁_elim (mem-map.0 m) ∥∥₁_prop (λ ((c, r), at, e).
        let test = not_yet_applicable engine like_prefix store prefixes after in
        let (mc, mr) = mem_of_mem-product c r _ _ (mem_of_mem-rows engine test _ at) in
        let holds = test_of_mem-rows engine test _ at in
        ∣ (
          c,
          record {
            requirement = r;
            requirement_stored = mr;
            condition_stored = mc;
            of_requirement = (str_eq_iff r.id c.requirement_id).0 (ground arith);
            current = ground arith;
            later = ground arith;
            named = ground arith;
          },
          e,
        ) ∣₁)),
    (λ t. ∥∥₁_elim t Mem-prop (λ (c, q, e).
        let same = (str_eq_iff q.requirement.id c.requirement_id).1 q.of_requirement in
        mem-map.1 ∣ (
          (c, q.requirement),
          mem-rows_of_mem engine (not_yet_applicable engine like_prefix store prefixes after) _
              (mem-product _ _ _ _ q.condition_stored q.requirement_stored)
              (ground (arith, same, q.current, q.later, q.named)),
          e,
        ) ∣₁)),
  )

  days_iff : (x : Date) → Mem x (engine.order_by Date lt starts) ↔ Mem x starts
  days_iff x = Perm.mem_iff (engine.order_by-perm Date lt starts)

  among :
      (c : ApplicabilityCondition)
      → Qualifies c
      → Mem c.temporal_start (engine.order_by Date lt starts)
  among c q = (days_iff c.temporal_start).1 ((starts_iff c.temporal_start).1 ∣ (c, q, refl) ∣₁)

  -- The next date that is found is the start of a condition that qualifies, and no condition that
  -- qualifies starts earlier.
  pub next_applicable_date-earliest :
      (day : Date)
      → next_applicable_date engine like_prefix store prefixes after ≡ some day
      → ∥ ((c : ApplicabilityCondition) × Qualifies c × (c.temporal_start ≡ day)) ∥₁
        × ((c : ApplicabilityCondition) → Qualifies c → lt c.temporal_start day ≡ false)
  unfolding next_applicable_date starts
  next_applicable_date-earliest day h = elim (Bool-cases (is_empty prefixes)) [
    | inl e ↦ absurd (let k = rw e at h in cc)
    | inr e ↦
        let days = engine.order_by Date lt starts in
        let found : first days ≡ some day = rw e at h in
        (
          (starts_iff day).0 ((days_iff day).0 (mem_of_first days found)),
          λ c q.
              first_least days (engine.order_by-IsSorted Date lt starts lt-IsStrictWeak) found
                (among c q),
        )
  ]

  -- None is found only where no condition qualifies.
  pub next_applicable_date-none :
      next_applicable_date engine like_prefix store prefixes after ≡ none
      → (c : ApplicabilityCondition) → ¬ Qualifies c
  unfolding next_applicable_date starts
  next_applicable_date-none h c q = elim (Bool-cases (is_empty prefixes)) [
    | inl e ↦ let nil = is_empty-eq-nil prefixes e in let named = rw nil at q.named in cc
    | inr e ↦
        let nothing : first (engine.order_by Date lt starts) ≡ none = rw e at h in
        let (b, found) = first_of_mem (engine.order_by Date lt starts) (among c q) in cc
  ]
