-- ===== src/Legal/Queries/ByKey.antt =====
-- The look-up of a requirement by its stable key.
use eu_ai_act_compliance.Prelude.{
  String, true, Option, none, some, List, ◌≡◌, refl, arith, Mem, str_eq_iff, str_eq_refl, first, ap,
  sym, ◌∙◌,
}
use eu_ai_act_compliance.Persistence.Engine.{
  Engine, mem_of_mem-rows, test_of_mem-rows, mem-rows_of_mem, mem_of_first, first_of_mem,
}
use eu_ai_act_compliance.Persistence.Models.{LegalProvision, Requirement}
use eu_ai_act_compliance.Legal.Store.{LegalStore}
use eu_ai_act_compliance.Legal.Queries.{
  RequirementResult, product, to_result, has_key, first_result, find_requirement_by_key,
}
use eu_ai_act_compliance.Legal.Queries.Product.{mem-product, mem_of_mem-product}

module _ (engine : Engine) (store : LegalStore) where
  -- A stored requirement of that key that is not superseded, with its provision.
  pub record Keyed (key : String) (q : RequirementResult) : Type 0 where
    pub requirement : Requirement
    pub provision : LegalProvision
    pub requirement_stored : Mem requirement store.requirements
    pub provision_stored : Mem provision store.legal_provisions
    pub of_provision : provision.id ≡ requirement.primary_provision_id
    pub of_key : requirement.requirement_key ≡ key
    pub current : requirement.superseded_by_id ≡ none
    pub shown : to_result engine store requirement provision ≡ q

  abbrev found : String → List (Requirement × LegalProvision)
  found key =
      engine.rows (Requirement × LegalProvision) (has_key engine store key)
        (product store.requirements store.legal_provisions)

  Keyed-of_row :
      (key : String) (o : Option (Requirement × LegalProvision)) (q : RequirementResult)
      → first (found key) ≡ o
      → first_result engine store o ≡ some q
      → Keyed key q
  Keyed-of_row key none q e h = cc
  Keyed-of_row key (some (r, p)) q e h =
      let m = mem_of_first (found key) e in
      let test = test_of_mem-rows engine (has_key engine store key) _ m in
      let (mr, mp) =
        mem_of_mem-product r p _ _ (mem_of_mem-rows engine (has_key engine store key) _ m) in
      record {
        requirement = r;
        provision = p;
        requirement_stored = mr;
        provision_stored = mp;
        of_provision = (str_eq_iff p.id r.primary_provision_id).0 (ground arith);
        of_key = (str_eq_iff r.requirement_key key).0 (ground arith);
        current = ground arith;
        shown = cc;
      }

  -- What is found is a current requirement of the key, with the text of its provision.
  pub find_requirement_by_key-Keyed :
      (key : String) (q : RequirementResult)
      → find_requirement_by_key engine store key ≡ some q
      → Keyed key q
  unfolding find_requirement_by_key
  find_requirement_by_key-Keyed key q h = Keyed-of_row key _ q refl h

  pub find_requirement_by_key-key :
      (key : String) (q : RequirementResult)
      → find_requirement_by_key engine store key ≡ some q
      → q.requirement_key ≡ key
  find_requirement_by_key-key key q h =
      let k = find_requirement_by_key-Keyed key q h in
      sym (ap (λ (x : RequirementResult). x.requirement_key) k.shown) ∙ k.of_key

  -- A current requirement of the key that has its provision is not overlooked.
  pub find_requirement_by_key-some :
      (r : Requirement) (p : LegalProvision)
      → Mem r store.requirements
      → Mem p store.legal_provisions
      → p.id ≡ r.primary_provision_id
      → r.superseded_by_id ≡ none
      → (q : RequirementResult) × (find_requirement_by_key engine store r.requirement_key ≡ some q)
  unfolding find_requirement_by_key
  find_requirement_by_key-some r p mr mp e current =
      let test : has_key engine store r.requirement_key (r, p) ≡ true =
        ground
          (arith, (str_eq_iff p.id r.primary_provision_id).1 e, str_eq_refl r.requirement_key) in
      let (row, here) = first_of_mem (found r.requirement_key) (
        mem-rows_of_mem engine (has_key engine store r.requirement_key) _
          (mem-product r p _ _ mr mp) test) in
      (to_result engine store row.0 row.1, ap (first_result engine store) here)
