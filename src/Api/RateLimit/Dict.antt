-- ===== src/Api/RateLimit/Dict.antt =====
-- src/api/rate_limit.py, the request log as a dictionary with a default.
use eu_ai_act_compliance.Prelude.{
  ℕ, String, false, List, [], ◌∷◌, ◌≡◌, inl, inr, refl, str_eq, str_eq_iff, str_eq_refl, Bool-cases,
}
use eu_ai_act_compliance.Api.RateLimit.{lookup, put}

pub lookup-put : (k : String) (v : List ℕ) (m : List (String × List ℕ)) → lookup k (put k v m) ≡ v
unfolding lookup put
lookup-put k v [] = rw (str_eq_refl k) refl
lookup-put k v ((j, log) ∷ rest) = elim (Bool-cases (str_eq k j)) [
  | inl q ↦ rw (q, q) refl
  | inr q ↦ rw (q, q) (lookup-put k v rest)
]

pub lookup-put-of_ne :
    (j k : String) (v : List ℕ) (m : List (String × List ℕ))
    → str_eq j k ≡ false
    → lookup j (put k v m) ≡ lookup j m
unfolding lookup put
lookup-put-of_ne j k v [] h = rw h refl
lookup-put-of_ne j k v ((i, log) ∷ rest) h = elim (Bool-cases (str_eq k i)) [
  | inl q ↦
      let k-i : k ≡ i = (str_eq_iff k i).0 q in
      let other : str_eq j i ≡ false = cc in rw (q, other) refl
  | inr q ↦ elim (Bool-cases (str_eq j i)) [
    | inl p ↦ rw (q, p) refl
    | inr p ↦ rw (q, p) (lookup-put-of_ne j k v rest h)
  ]
]
