-- ===== src/Legal/UpdateAlerts/Amended.antt =====
-- src/legal/update_alerts.py: which keys are outdated.
use mathlib.Core.Logic.{∥∥₁_elim, ∥∥₁_prop}
use mathlib.Core.Logic.Or
use mathlib.Core.Bool.{Bool-set}
use mathlib.Core.List.{mem-map, mem-cons, mem-cons_self, mem-cons_of_mem, not-mem-nil, Mem-prop}
use eu_ai_act_compliance.Prelude.{
  ◌<◌, String, Bool, true, ◌&&◌, List, [], ◌∷◌, map, ◌≡◌, ◌↔◌, inl, inr, arith, sym, Mem, ltb,
  ltb→lt, lt→ltb, str_eq, str_eq_iff, contains, is_empty, is_empty-eq-nil, Bool-cases,
}
use eu_ai_act_compliance.Calendar.{DateTime}
use eu_ai_act_compliance.Persistence.Engine.{
  Engine, mem_of_mem-rows, test_of_mem-rows, mem-rows_of_mem,
}
use eu_ai_act_compliance.Persistence.Models.{Requirement}
use eu_ai_act_compliance.Legal.Store.{LegalStore}
use eu_ai_act_compliance.Legal.UpdateAlerts.{distinct, find_outdated_requirement_keys}

contains_of_mem : (k : String) (xs : List String) → Mem k xs → contains k xs ≡ true
unfolding contains
contains_of_mem k [] m = absurd (not-mem-nil m)
contains_of_mem k (x ∷ xs) m =
    Or.elim (Bool-set _ _) (mem-cons.0 m)
      (λ e. (let same = (str_eq_iff x k).1 (sym e) in ground arith))
      (λ later. (let ih = contains_of_mem k xs later in ground arith))

mem_of_contains : (k : String) (xs : List String) → contains k xs ≡ true → Mem k xs
unfolding contains
mem_of_contains k [] h = absurd (cc)
mem_of_contains k (x ∷ xs) h = elim (Bool-cases (str_eq x k)) [
  | inl q ↦ let same : x ≡ k = (str_eq_iff x k).0 q in rw (sym same) mem-cons_self
  | inr q ↦ mem-cons_of_mem x (mem_of_contains k xs (ground arith))
]

mem-distinct : (k : String) (xs : List String) → Mem k (distinct xs) ↔ Mem k xs
unfolding distinct
mem-distinct k [] = ((λ m. m), (λ m. m))
mem-distinct k (x ∷ xs) =
    let ih = mem-distinct k xs in
    elim (Bool-cases (contains x (distinct xs))) [
      | inl q ↦ rw q (
        (λ m. mem-cons_of_mem x (ih.0 m)),
        (λ m.
            Or.elim Mem-prop (mem-cons.0 m) (λ e. rw e (mem_of_contains x (distinct xs) q))
              (λ l. ih.1 l)),
      )
      | inr q ↦ rw q (
        (λ m.
            Or.elim Mem-prop (mem-cons.0 m) (λ e. rw e mem-cons_self)
              (λ l. mem-cons_of_mem x (ih.0 l))),
        (λ m.
            Or.elim Mem-prop (mem-cons.0 m) (λ e. rw e mem-cons_self)
              (λ l. mem-cons_of_mem x (ih.1 l))),
      )
    ]

module _ (engine : Engine) (store : LegalStore) where
  -- A version of the key that was stored after the instant.
  pub record LaterVersion (as_of : DateTime) (key : String) : Type 0 where
    pub version : Requirement
    pub stored : Mem version store.requirements
    pub of_key : version.requirement_key ≡ key
    pub later : as_of < version.created_at

  -- The outdated keys are those of the given keys of which a version was stored after the instant.
  pub find_outdated_requirement_keys_iff :
      (keys : List String) (as_of : DateTime) (key : String)
      → Mem key (find_outdated_requirement_keys engine store keys as_of)
        ↔ (Mem key keys × ∥ LaterVersion as_of key ∥₁)
  unfolding find_outdated_requirement_keys
  find_outdated_requirement_keys_iff keys as_of key = elim (Bool-cases (is_empty keys)) [
    | inl e ↦
        let nil = is_empty-eq-nil keys e in
        rw e ((λ m. absurd (not-mem-nil m)), (λ (m, v). absurd (not-mem-nil (rw nil at m))))
    | inr e ↦ rw e (
      (λ m.
          let found = (mem-distinct key _).0 m in
          (
            ∥∥₁_elim (mem-map.0 found) Mem-prop (λ (r, at, same).
                rw (sym same) (mem_of_contains r.requirement_key keys (asked r at).0)),
            ∥∥₁_elim (mem-map.0 found) ∥∥₁_prop (λ (r, at, same). ∣ record {
              version = r;
              stored = mem_of_mem-rows engine test store.requirements at;
              of_key = same;
              later = ltb→lt as_of r.created_at (asked r at).1;
            } ∣₁),
          )),
      (λ (m, v).
          (mem-distinct key
              (map (λ r. r.requirement_key) (engine.rows Requirement test store.requirements))).1
            (∥∥₁_elim v Mem-prop (λ l. (mem-map {f = λ (r : Requirement). r.requirement_key}).1 ∣ (
              l.version,
              mem-rows_of_mem engine test store.requirements l.stored (passes l m),
              l.of_key,
            ) ∣₁))),
    )
  ]
    where
      test : Requirement → Bool
      test r = contains r.requirement_key keys && ltb as_of r.created_at

      asked :
          (r : Requirement)
          → Mem r (engine.rows Requirement test store.requirements)
          → (contains r.requirement_key keys ≡ true) × (ltb as_of r.created_at ≡ true)
      asked r at =
          let h = test_of_mem-rows engine test store.requirements at in (ground arith, ground arith)

      passes : (l : LaterVersion as_of key) → Mem key keys → test l.version ≡ true
      passes l m =
          let known : contains l.version.requirement_key keys ≡ true =
            rw l.of_key (contains_of_mem key keys m) in
          let young = lt→ltb as_of l.version.created_at l.later in ground arith
