-- ===== src/Legal/Versioning/Supersession.antt =====
-- src/legal/versioning.py: which versions are current after a supersession, and what they apply to.
use mathlib.Core.Logic.Or
use mathlib.Core.List.{
  mem-cons, mem-cons_self, mem-cons_of_mem, not-mem-nil, Mem-prop, mem-append_left,
}
use eu_ai_act_compliance.Prelude.{
  ℕ, suc, ◌+◌, String, Bool, true, List, [], ◌∷◌, ◌++◌, map, Option, none, some, ◌≡◌, ◌≢◌, ◌↔◌, inl,
  inr, refl, ap, sym, ◌∙◌, Mem, All, str_eq, str_eq_iff, str_eq_refl, filter, filter-append,
  Bool-cases,
}
use eu_ai_act_compliance.Result.{ok}
use eu_ai_act_compliance.Calendar.{Date, DateTime}
use eu_ai_act_compliance.Schemas.Enums.ActorRole.{ActorRole}
use eu_ai_act_compliance.Persistence.Engine.{Engine}
use eu_ai_act_compliance.Persistence.Models.{Requirement, ApplicabilityCondition}
use eu_ai_act_compliance.Legal.Store.{LegalStore}
use eu_ai_act_compliance.Legal.Queries.{is_current}
use eu_ai_act_compliance.Legal.Versioning.{
  copy_conditions, set_superseded, conditions_of, new_version, superseded_store,
  supersede_requirement,
}

-- Whom and when a condition applies to.
pub record Scope : Type 0 where
  pub actor_role : Option ActorRole
  pub sector : Option String
  pub annex_iii_category : Option String
  pub temporal_start : Date
  pub temporal_end : Option Date

pub scope : ApplicabilityCondition → Scope
scope c = record {
  actor_role = c.actor_role;
  sector = c.sector;
  annex_iii_category = c.annex_iii_category;
  temporal_start = c.temporal_start;
  temporal_end = c.temporal_end;
}

belongs : String → ApplicabilityCondition → Bool
belongs id c = str_eq c.requirement_id id

scopes-copy :
    (uuid : ℕ → String) (n : ℕ) (id : String) (cs : List ApplicabilityCondition)
    → map scope (filter (belongs id) (copy_conditions uuid n id cs)) ≡ map scope cs
unfolding copy_conditions scope belongs
scopes-copy uuid n id [] = refl
scopes-copy uuid n id (c ∷ rest) = rw (str_eq_refl id, scopes-copy uuid (suc n) id rest) refl

filter-belongs-none :
    (id : String) (cs : List ApplicabilityCondition)
    → All (λ c. c.requirement_id ≢ id) cs
    → filter (belongs id) cs ≡ []
unfolding belongs
filter-belongs-none id [] h = refl
filter-belongs-none id (c ∷ rest) (h, hs) = elim (Bool-cases (str_eq c.requirement_id id)) [
  | inl q ↦ absurd (h ((str_eq_iff c.requirement_id id).0 q))
  | inr q ↦ rw q (filter-belongs-none id rest hs)
]

⊥-prop : (a b : ⊥) → a ≡ b
⊥-prop a b = absurd a

current-set_superseded :
    (old_id new_id : String) (rs : List Requirement) (r : Requirement)
    → (Mem r (set_superseded old_id new_id rs) × (is_current r ≡ true))
      ↔ (Mem r rs × (is_current r ≡ true) × (r.id ≢ old_id))
unfolding set_superseded
current-set_superseded old_id new_id [] r =
    ((λ (m, c). absurd (not-mem-nil m)), (λ (m, c, n). absurd (not-mem-nil m)))
current-set_superseded old_id new_id (x ∷ rest) r =
    let ih = current-set_superseded old_id new_id rest r in
    elim (Bool-cases (str_eq x.id old_id)) [
      | inl q ↦
          let same : x.id ≡ old_id = (str_eq_iff x.id old_id).0 q in
          rw q (
            (λ (m, c).
                let marked : r ≡ record x { superseded_by_id = some new_id } → ⊥ =
                  λ e. (let k = ap (λ z. is_current z) e in cc) in
                (
                  Or.elim Mem-prop (mem-cons.0 m) (λ e. absurd (marked e))
                      (λ l. mem-cons_of_mem x (ih.0 (l, c)).0),
                  c,
                  λ i. Or.elim ⊥-prop (mem-cons.0 m) marked (λ l. (ih.0 (l, c)).2 i),
                )),
            (λ (m, c, n). (
              Or.elim Mem-prop (mem-cons.0 m) (λ e. absurd (n (ap (λ z. z.id) e ∙ same)))
                  (λ l. mem-cons_of_mem _ (ih.1 (l, c, n)).0),
              c,
            )),
          )
      | inr q ↦
          let other : r ≡ x → r.id ≢ old_id =
            λ e i. (let k = (str_eq_iff x.id old_id).1 (ap (λ z. z.id) (sym e) ∙ i) in cc) in
          rw q (
            (λ (m, c). (
              Or.elim Mem-prop (mem-cons.0 m) (λ e. rw e mem-cons_self)
                  (λ l. mem-cons_of_mem x (ih.0 (l, c)).0),
              c,
              λ i. Or.elim ⊥-prop (mem-cons.0 m) (λ e. other e i) (λ l. (ih.0 (l, c)).2 i),
            )),
            (λ (m, c, n). (
              Or.elim Mem-prop (mem-cons.0 m) (λ e. rw e mem-cons_self)
                  (λ l. mem-cons_of_mem x (ih.1 (l, c, n)).0),
              c,
            )),
          )
    ]

module _ (engine : Engine) (uuid : ℕ → String) (now : DateTime) (store : LegalStore)
    (old : Requirement) (summary provision : String) where
  -- The current versions after a supersession that does not raise are the new one and those that
  -- were current before, but for the old one's row.
  pub supersede_requirement-current_iff :
      old.superseded_by_id ≡ none
      → uuid 0 ≢ old.id
      → (r : Requirement)
      → (Mem r (supersede_requirement engine uuid now old summary provision store).1.requirements
          × (is_current r ≡ true))
        ↔ ((Mem r (store.requirements ++ (new_version engine uuid now old summary provision ∷ [])))
            × (is_current r ≡ true)
            × (r.id ≢ old.id))
  unfolding supersede_requirement superseded_store new_version
  supersede_requirement-current_iff open_ fresh r = rw open_ (
      current-set_superseded old.id (uuid 0)
        (store.requirements ++ (new_version engine uuid now old summary provision ∷ [])) r)

  -- A supersession of a version that is not superseded gives the next version of the same key,
  -- which applies to the same roles, sectors, categories and times as the old one did; the rows of
  -- the old conditions stay.
  pub supersede_requirement-carries :
      All (λ c. c.requirement_id ≢ uuid 0) store.applicability_conditions
      → old.superseded_by_id ≡ none
      → let (r, after) = supersede_requirement engine uuid now old summary provision store in
        let new = new_version engine uuid now old summary provision in
        (r ≡ ok new)
        × (new.version ≡ old.version + 1)
        × (new.requirement_key ≡ old.requirement_key)
        × (map scope (filter (λ c. str_eq c.requirement_id new.id) after.applicability_conditions)
            ≡ map scope (conditions_of engine uuid now old store))
        × ((c : ApplicabilityCondition)
            → Mem c store.applicability_conditions
            → Mem c after.applicability_conditions)
  unfolding supersede_requirement superseded_store new_version belongs
  supersede_requirement-carries fresh open_ =
      rw open_ (refl, refl, refl, carried, λ c m. mem-append_left _ m)
    where
      copies : List ApplicabilityCondition
      copies = copy_conditions uuid 1 (uuid 0) (conditions_of engine uuid now old store)

      carried :
          map scope (
            filter
              (λ c. str_eq c.requirement_id (uuid 0))
              (store.applicability_conditions ++ copies))
          ≡ map scope (conditions_of engine uuid now old store)
      carried =
          rw
            (
              filter-append (belongs (uuid 0)) store.applicability_conditions copies,
              filter-belongs-none (uuid 0) store.applicability_conditions fresh,
            )
            (scopes-copy uuid 1 (uuid 0) (conditions_of engine uuid now old store))
