-- ===== src/Retrieval/Ranking.antt =====
-- What `retrieve` returns: at most `limit` requirements, from those that the query filters allow,
-- with a prefix that was asked for, in falling order of relevance.
use mathlib.Core.Logic.{∥∥₁_elim, ∥∥₁_prop}
use mathlib.Core.Logic.Or
use mathlib.Core.List.Perm
use mathlib.Core.List.{mem-map, Mem-prop, not-mem-nil, mem-cons, mem-cons_self, mem-cons_of_mem}
use eu_ai_act_compliance.Prelude.{
  ℕ, zero, suc, ◌≤◌, String, true, Option, some, List, [], ◌∷◌, map, Mem, ◌≡◌, refl, arith, ap, ◌∙◌,
  filter, length, take, is_empty, ◌⊎◌, inl, inr, false, mem-filter_of_mem, test_of_mem-filter,
  mem_of_mem-filter,
}
use eu_ai_act_compliance.Prelude.Sort.{sort, sort-perm, is_empty-sort}
use eu_ai_act_compliance.Calendar.{Date}
use eu_ai_act_compliance.Persistence.Engine.{Engine}
use eu_ai_act_compliance.Schemas.Enums.ActorRole.{ActorRole}
use eu_ai_act_compliance.Legal.Store.{LegalStore}
use eu_ai_act_compliance.Legal.Queries.{RequirementResult, find_requirements}
use eu_ai_act_compliance.Retrieval.{
  Score, RetrievedRequirement, keyword_score, to_retrieved, starts_with_any, ranks_before, retrieve,
}

pub length-take-le {ℓ} : {A : Type ℓ} (n : ℕ) (xs : List A) → length (take n xs) ≤ n
length-take-le zero xs = omega arith
length-take-le (suc n) [] = omega arith
length-take-le (suc n) (x ∷ xs) = omega (arith, length-take-le n xs)

pub mem_of_mem-take {ℓ} : {A : Type ℓ} {a : A} (n : ℕ) (xs : List A) → Mem a (take n xs) → Mem a xs
mem_of_mem-take zero xs m = absurd (not-mem-nil m)
mem_of_mem-take (suc n) [] m = m
mem_of_mem-take (suc n) (x ∷ xs) m =
    Or.elim Mem-prop (mem-cons.0 m) (λ e. rw e mem-cons_self)
      (λ r. mem-cons_of_mem x (mem_of_mem-take n xs r))

length-map {ℓ κ} :
    {A : Type ℓ} {B : Type κ} (f : A → B) (xs : List A) → length (map f xs) ≡ length xs
length-map f [] = refl
length-map f (x ∷ xs) = ap suc (length-map f xs)

is_empty-map {ℓ κ} :
    {A : Type ℓ} {B : Type κ} (f : A → B) (xs : List A) → is_empty (map f xs) ≡ is_empty xs
is_empty-map f [] = refl
is_empty-map f (x ∷ xs) = refl

is_empty-take {ℓ} : {A : Type ℓ} (n : ℕ) (xs : List A) → is_empty (take (suc n) xs) ≡ is_empty xs
is_empty-take n [] = refl
is_empty-take n (x ∷ xs) = refl

module _ (engine : Engine) (store : LegalStore) (query : String) (category : Option String)
    (role : Option ActorRole) (day : Option Date) where
  pub length-retrieve-le :
      (prefixes : Option (List String)) (limit : ℕ)
      → length (retrieve engine store query category role day prefixes limit) ≤ limit
  unfolding retrieve
  length-retrieve-le prefixes limit = rw length-map (length-take-le limit _)

  -- A retrieved requirement is a result of the query, scored against its summary.
  pub record FromQuery (prefixes : List String) (q : RetrievedRequirement) : Type 0 where
    pub result : RequirementResult
    pub queried : Mem result (find_requirements engine store category role day)
    pub in_scope : starts_with_any prefixes result.requirement_key ≡ true
    pub shown : to_retrieved result (keyword_score query result.summary) ≡ q

  -- With prefixes, what is retrieved is a result of the query under the given filters, whose key starts
  -- with one of the prefixes, and its score is that of its summary.
  pub retrieve-FromQuery :
      (prefixes : List String) (limit : ℕ) (q : RetrievedRequirement)
      → Mem q (retrieve engine store query category role day (some prefixes) limit)
      → ∥ FromQuery prefixes q ∥₁
  unfolding retrieve
  retrieve-FromQuery prefixes limit q m = ∥∥₁_elim (mem-map.0 m) ∥∥₁_prop (λ (pair, at, e).
      let inside = (Perm.mem_iff (sort-perm ranks_before _)).0 (mem_of_mem-take limit _ at) in
      ∥∥₁_elim (mem-map.0 inside) ∥∥₁_prop (λ (c, here, same). ∣ record {
        result = c;
        queried = mem_of_mem-filter _ _ here;
        in_scope =
            test_of_mem-filter
              (λ (x : RequirementResult). starts_with_any prefixes x.requirement_key) _ here;
        shown = ap (λ (x : Score × RequirementResult). to_retrieved x.1 x.0) same ∙ e;
      } ∣₁))

  -- A result of the query whose key starts with one of the prefixes.
  pub record Found (prefixes : List String) : Type 0 where
    pub found : RequirementResult
    pub queried : Mem found (find_requirements engine store category role day)
    pub in_scope : starts_with_any prefixes found.requirement_key ≡ true

  is_empty-retrieve :
      (prefixes : List String) (n : ℕ)
      → is_empty (retrieve engine store query category role day (some prefixes) (suc n))
        ≡ is_empty (
            filter
              (λ c. starts_with_any prefixes c.requirement_key)
              (find_requirements engine store category role day))
  unfolding retrieve
  is_empty-retrieve prefixes n =
      is_empty-map _ (take (suc n) (sort ranks_before _))
      ∙ is_empty-take n (sort ranks_before _)
      ∙ is_empty-sort ranks_before _
      ∙ is_empty-map _ _

  -- Either nothing is found and nothing retrieved, or there is something to be found.
  pub retrieve-cases :
      (prefixes : List String) (n : ℕ)
      → ((is_empty (retrieve engine store query category role day (some prefixes) (suc n)) ≡ true)
          × (¬ Found prefixes))
        ⊎ ((is_empty (retrieve engine store query category role day (some prefixes) (suc n))
              ≡ false)
            × ∥ Found prefixes ∥₁)
  retrieve-cases prefixes n =
      let results = find_requirements engine store category role day in
      let in_scope = λ (c : RequirementResult). starts_with_any prefixes c.requirement_key in
      rw (is_empty-retrieve prefixes n) (go (filter in_scope results) refl)
    where
      go :
          (kept : List RequirementResult)
          → filter
              (λ c. starts_with_any prefixes c.requirement_key)
              (find_requirements engine store category role day)
            ≡ kept
          → ((is_empty kept ≡ true) × (¬ Found prefixes))
            ⊎ ((is_empty kept ≡ false) × ∥ Found prefixes ∥₁)
      go [] e = inl (
        refl,
        λ x. not-mem-nil (
            rw e at (
              mem-filter_of_mem
                (λ (c : RequirementResult). starts_with_any prefixes c.requirement_key) _ x.queried
                x.in_scope)),
      )
      go (x ∷ kept) e =
          let m : Mem x (
              filter (λ (c : RequirementResult). starts_with_any prefixes c.requirement_key)
                (find_requirements engine store category role day)) =
            rw e mem-cons_self in
          inr (
            refl,
            ∣ record {
              found = x;
              queried = mem_of_mem-filter _ _ m;
              in_scope =
                  test_of_mem-filter
                    (λ (c : RequirementResult). starts_with_any prefixes c.requirement_key) _ m;
            } ∣₁,
          )
