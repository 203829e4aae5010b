-- ===== src/Retrieval.antt =====
-- src/retrieval/retrieval.py: the applicable requirements of a category, ranked by how many of the
-- query's words they share.
pub mod Words
pub mod Ranking
use eu_ai_act_compliance.Prelude.{
  ℕ, zero, suc, ◌*◌, String, Bool, true, false, ◌||◌, Option, none, some, List, [], ◌∷◌, map,
  filter, length, take, ltb, any, is_empty, starts_with, contains, if◌then◌else◌,
}
use eu_ai_act_compliance.Prelude.Sort.{sort}
use eu_ai_act_compliance.Calendar.{Date}
use eu_ai_act_compliance.Persistence.Engine.{Engine}
use eu_ai_act_compliance.Schemas.Enums.ActorRole.{ActorRole}
use eu_ai_act_compliance.Legal.Store.{LegalStore}
use eu_ai_act_compliance.Legal.Queries.{
  RequirementResult, find_requirements, find_requirement_by_key,
}
use eu_ai_act_compliance.Retrieval.Words.{significant_words, contains_word}

-- The quotient of two small numbers, which the source rounds to a `float`. Two quotients of numbers
-- below 2^26 that differ round to doubles in the same order.
pub record Score : Type 0 where
  pub hits : ℕ
  pub of_words : ℕ

-- `a < b`
abbrev pub lower : Score → Score → Bool
lower a b = ltb (a.hits * b.of_words) (b.hits * a.of_words)

pub record RetrievedRequirement : Type 0 where
  pub requirement_key : String
  pub summary : String
  pub citation : String
  pub provision_text : String
  pub exceptions : List String
  pub relevance_score : Score

-- `len(query_words & candidate_words) / len(query_words)`
unfoldable pub keyword_score : String → String → Score
unfolding significant_words contains_word
keyword_score query_text candidate_text =
    let query_words = significant_words query_text in
    if is_empty query_words then record { hits = 0; of_words = 1 } else record {
      hits = length (filter (λ w. contains_word w (significant_words candidate_text)) query_words);
      of_words = length query_words;
    }

unfoldable pub to_retrieved : RequirementResult → Score → RetrievedRequirement
to_retrieved result score = record {
  requirement_key = result.requirement_key;
  summary = result.summary;
  citation = result.citation;
  provision_text = result.provision_text;
  exceptions = result.exceptions;
  relevance_score = score;
}

-- `key.startswith(prefixes)` for a tuple of prefixes
unfoldable pub starts_with_any : List String → String → Bool
starts_with_any prefixes key = any (λ p. starts_with key p) prefixes

abbrev pub prefix_filter : Option (List String) → List RequirementResult → List RequirementResult
prefix_filter none candidates = candidates
prefix_filter (some prefixes) candidates =
    filter (λ c. starts_with_any prefixes c.requirement_key) candidates

-- `scored.sort(key=..., reverse=True)` keeps the order of equal elements.
abbrev pub ranks_before : Score × RequirementResult → Score × RequirementResult → Bool
ranks_before (a, x) (b, y) = lower b a

module _ (engine : Engine) (store : LegalStore) where
  unfoldable pub retrieve :
      (query_text : String) (annex_iii_category : Option String) (actor_role : Option ActorRole)
      (as_of : Option Date) (requirement_key_prefixes : Option (List String)) (limit : ℕ)
      → List RetrievedRequirement
  unfolding to_retrieved
  retrieve query_text annex_iii_category actor_role as_of requirement_key_prefixes limit =
      let candidates =
        prefix_filter requirement_key_prefixes
          (find_requirements engine store annex_iii_category actor_role as_of) in
      let scored = map (λ c. (keyword_score query_text c.summary, c)) candidates in
      map (λ (score, c). to_retrieved c score) (take limit (sort ranks_before scored))

  unfoldable pub retrieve_by_key : String → Option RetrievedRequirement
  unfolding to_retrieved
  retrieve_by_key requirement_key = elim (find_requirement_by_key engine store requirement_key) [
    | none ↦ none
    | some result ↦ some (to_retrieved result (record { hits = 1; of_words = 1 }))
  ]
