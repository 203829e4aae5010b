-- ===== src/Schemas/Validity.antt =====
-- What the validators of schemas/classification.py and schemas/evidence.py guarantee.
use eu_ai_act_compliance.Prelude.{
  ℕ, ◌+◌, ◌≤◌, true, false, List, [], ◌∷◌, map, length, is_empty, all, ◌≡◌, inl, inr, refl, arith,
  Mem, if◌then◌else◌, Bool-cases, ◌↔◌,
}
use mathlib.Core.List.{mem-cons_self, mem-cons_of_mem}
use eu_ai_act_compliance.Result.{ok}
use eu_ai_act_compliance.Schemas.Enums.Category
use eu_ai_act_compliance.Schemas.Enums.Category.{
  ClassificationCategory, scope, prohibited_practices, high_risk, gpai, transparency,
}
use eu_ai_act_compliance.Schemas.Classification.{
  CategoryClassification, ClassificationResult, in_cited_states, classification_fields, validate,
  includes, require_citation_for_affirmative_states, classification_result, find_category,
  for_category,
}

-- What a classification satisfies once it has been built.
pub record IsValid (a : CategoryClassification) : Type 0 where
  pub fields : classification_fields a ≡ true
  pub cited : in_cited_states a.state ≡ true → is_empty a.cited_requirements ≡ false

pub validate-eq-ok : (a b : CategoryClassification) → validate a ≡ ok b → (b ≡ a) × IsValid a
unfolding validate require_citation_for_affirmative_states
validate-eq-ok a b h = (ground arith, record { fields = ground arith; cited = ground arith })

pub IsValid-validate : (a : CategoryClassification) → IsValid a → validate a ≡ ok a
unfolding validate require_citation_for_affirmative_states
IsValid-validate a v = ground (arith, v.cited)

-- How many assessments a result holds for a category.
abbrev pub count : ClassificationCategory → List CategoryClassification → ℕ
count c [] = 0
count c (a ∷ rest) = (if Category.eq a.category c then 1 else 0) + count c rest

length-eq-counts :
    (xs : List CategoryClassification)
    → length (map (λ a. a.category) xs)
      ≡ count scope xs
        + count prohibited_practices xs
        + count high_risk xs
        + count gpai xs
        + count transparency xs
length-eq-counts [] = refl
length-eq-counts (a ∷ rest) = ground (arith, length-eq-counts rest)

includes-pos :
    (c : ClassificationCategory) (xs : List CategoryClassification)
    → includes c (map (λ a. a.category) xs) ≡ true
    → 1 ≤ count c xs
unfolding includes
includes-pos c [] h = cc
includes-pos c (a ∷ rest) h = ground (arith, includes-pos c rest)

pos-includes :
    (c : ClassificationCategory) (xs : List CategoryClassification)
    → 1 ≤ count c xs
    → includes c (map (λ a. a.category) xs) ≡ true
unfolding includes
pos-includes c [] h = absurd (omega arith)
pos-includes c (a ∷ rest) h = ground (arith, pos-includes c rest)

every_category_included :
    (xs : List CategoryClassification)
    → all (λ c. includes c (map (λ a. a.category) xs)) Category.members ≡ true
    → (c : ClassificationCategory) → 1 ≤ count c xs
every_category_included xs h scope = includes-pos scope xs (ground arith)
every_category_included xs h prohibited_practices =
    includes-pos prohibited_practices xs (ground arith)
every_category_included xs h high_risk = includes-pos high_risk xs (ground arith)
every_category_included xs h gpai = includes-pos gpai xs (ground arith)
every_category_included xs h transparency = includes-pos transparency xs (ground arith)

five_ones :
    (a b c d e : ℕ)
    → a + b + c + d + e ≡ 5
    → 1 ≤ a
    → 1 ≤ b
    → 1 ≤ c
    → 1 ≤ d
    → 1 ≤ e
    → (a ≡ 1) × (b ≡ 1) × (c ≡ 1) × (d ≡ 1) × (e ≡ 1)
five_ones a b c d e sum ha hb hc hd he = omega arith

-- Each category is there at least once, and there are five assessments in all.
exactly_once :
    (xs : List CategoryClassification)
    → length (map (λ a. a.category) xs) ≡ 5
    → ((c : ClassificationCategory) → 1 ≤ count c xs)
    → (c : ClassificationCategory) → count c xs ≡ 1
exactly_once xs five some_of =
    let ones =
      five_ones (count scope xs) (count prohibited_practices xs) (count high_risk xs)
        (count gpai xs) (count transparency xs) (omega (arith, length-eq-counts xs)) (some_of scope)
        (some_of prohibited_practices) (some_of high_risk) (some_of gpai) (some_of transparency) in
    elim [
      | scope ↦ ones.0
      | prohibited_practices ↦ ones.1
      | high_risk ↦ ones.2
      | gpai ↦ ones.3
      | transparency ↦ ones.4
    ]

-- A result is accepted exactly when it holds one assessment of each category, and an accepted
-- result is not changed.
pub classification_result-exactly_once :
    (xs : List CategoryClassification)
    → (classification_result xs ≡ ok (record { assessments = xs }))
      ↔ ((c : ClassificationCategory) → count c xs ≡ 1)
unfolding classification_result
classification_result-exactly_once xs = (to, from)
  where
    to :
        classification_result xs ≡ ok (record { assessments = xs })
        → (c : ClassificationCategory) → count c xs ≡ 1
    to h = exactly_once xs (ground arith) (every_category_included xs (ground arith))

    from :
        ((c : ClassificationCategory) → count c xs ≡ 1)
        → classification_result xs ≡ ok (record { assessments = xs })
    from h = ground (
      arith,
      length-eq-counts xs,
      h scope,
      h prohibited_practices,
      h high_risk,
      h gpai,
      h transparency,
      pos-includes scope xs,
      pos-includes prohibited_practices xs,
      pos-includes high_risk xs,
      pos-includes gpai xs,
      pos-includes transparency xs,
    )

find_category_lem :
    (c : ClassificationCategory) (xs : List CategoryClassification)
    → 1 ≤ count c xs
    → (a : CategoryClassification) × (find_category c xs ≡ ok a) × Mem a xs × (a.category ≡ c)
unfolding find_category
find_category_lem c [] h = absurd (omega arith)
find_category_lem c (a ∷ rest) h = elim (Bool-cases (Category.eq a.category c)) [
  | inl q ↦ (a, rw q, mem-cons_self, (Category.eq_iff a.category c).0 q)
  | inr q ↦
      let (b, found, member, same) = find_category_lem c rest (ground arith) in
      (b, rw q found, mem-cons_of_mem a member, same)
]

-- A valid result has an assessment of every category: `for_category` finds one, of that category.
pub for_category_lem :
    (r : ClassificationResult) (c : ClassificationCategory)
    → classification_result r.assessments ≡ ok r
    → (a : CategoryClassification) × (for_category r c ≡ ok a)
      × Mem a r.assessments
      × (a.category ≡ c)
unfolding for_category
for_category_lem r c h =
    find_category_lem c r.assessments
      (omega (arith, (classification_result-exactly_once r.assessments).0 h c))
