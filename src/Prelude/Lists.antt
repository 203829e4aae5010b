-- ===== src/Prelude/Lists.antt =====
-- Lists measured by native numbers, filtered and searched by Boolean tests.
use Prim.Native.Nat.{ℕ, zero, suc, ◌+◌, ◌≤◌}
use mathlib.Core.Path.{◌≡◌, refl, ap, ◌∙◌}
use mathlib.Core.Logic.{◌↔◌, inl, inr}
use mathlib.Core.Logic.Or
use mathlib.Core.Bool.{Bool, true, false, ◌&&◌, ◌||◌, Bool-set}
use mathlib.Core.Option.{Option, none, some}
use mathlib.Core.List.{
  List, [], ◌∷◌, ◌++◌, Mem, Mem-prop, not-mem-nil, mem-cons, mem-cons_self, mem-cons_of_mem,
}
use native.Mathlib.Omega.{arith}
use eu_ai_act_compliance.Prelude.Tests.{if◌then◌else◌, Bool-cases}

module _ {ℓ} {A : Type ℓ} where
  abbrev pub length : List A → ℕ
  length [] = 0
  length (x ∷ xs) = suc (length xs)

  -- `xs[:n]`
  abbrev pub take : ℕ → List A → List A
  take zero xs = []
  take (suc n) [] = []
  take (suc n) (x ∷ xs) = x ∷ take n xs

  -- the first element, if there is one
  abbrev pub first : List A → Option A
  first [] = none
  first (x ∷ xs) = some x

  abbrev pub is_empty : List A → Bool
  is_empty [] = true
  is_empty (x ∷ xs) = false

  -- Every element satisfies the predicate.
  abbrev pub All {κ} : (A → Type κ) → List A → Type κ
  All P [] = Unit
  All P (x ∷ xs) = P x × All P xs

  -- `[x for x in xs if p(x)]`
  abbrev pub filter : (A → Bool) → List A → List A
  filter p [] = []
  filter p (x ∷ xs) = if p x then x ∷ filter p xs else filter p xs

  -- `all(p(x) for x in xs)`
  abbrev pub all : (A → Bool) → List A → Bool
  all p [] = true
  all p (x ∷ xs) = p x && all p xs

  -- `any(p(x) for x in xs)`
  abbrev pub any : (A → Bool) → List A → Bool
  any p [] = false
  any p (x ∷ xs) = p x || any p xs

  pub length-append : (xs ys : List A) → length (xs ++ ys) ≡ length xs + length ys
  length-append [] ys = omega arith
  length-append (x ∷ xs) ys = omega (arith, length-append xs ys)

  pub length-filter-le : (p : A → Bool) (xs : List A) → length (filter p xs) ≤ length xs
  length-filter-le p [] = omega arith
  length-filter-le p (x ∷ xs) = ground (arith, length-filter-le p xs)

  pub filter-append :
      (p : A → Bool) (xs ys : List A) → filter p (xs ++ ys) ≡ filter p xs ++ filter p ys
  filter-append p [] ys = refl
  filter-append p (x ∷ xs) ys = ground (arith, filter-append p xs ys)

  pub filter-eq-nil : (p : A → Bool) (xs : List A) → filter p xs ≡ [] ↔ (any p xs ≡ false)
  filter-eq-nil p [] = ground arith
  filter-eq-nil p (x ∷ xs) = ground (arith, filter-eq-nil p xs)

  pub all_of_mem : (p : A → Bool) {x : A} (xs : List A) → all p xs ≡ true → Mem x xs → p x ≡ true
  all_of_mem p [] h m = absurd (not-mem-nil m)
  all_of_mem p {x} (y ∷ ys) h m =
      Or.elim (Bool-set _ _) (mem-cons.0 m) (λ e. subst_eq e (ground arith))
        (λ r. all_of_mem p ys (ground arith) r)
    where
      subst_eq : x ≡ y → p y ≡ true → p x ≡ true
      subst_eq e q = cc

  pub any_of_mem : (p : A → Bool) {x : A} (xs : List A) → Mem x xs → p x ≡ true → any p xs ≡ true
  any_of_mem p [] m h = absurd (not-mem-nil m)
  any_of_mem p {x} (y ∷ ys) m h =
      Or.elim (Bool-set _ _) (mem-cons.0 m) (λ e. here (cc)) (λ r. there (any_of_mem p ys r h))
    where
      here : p y ≡ true → p y || any p ys ≡ true
      here q = ground arith

      there : any p ys ≡ true → p y || any p ys ≡ true
      there q = ground arith

  pub mem-filter_of_mem :
      (p : A → Bool) {x : A} (xs : List A) → Mem x xs → p x ≡ true → Mem x (filter p xs)
  mem-filter_of_mem p [] m h = absurd (not-mem-nil m)
  mem-filter_of_mem p {x} (y ∷ ys) m h = elim (Bool-cases (p y)) [
    | inl q ↦ rw q (
        Or.elim Mem-prop (mem-cons.0 m) (λ e. rw e mem-cons_self)
          (λ r. mem-cons_of_mem y (mem-filter_of_mem p ys r h)))
    | inr q ↦
        rw q (Or.elim Mem-prop (mem-cons.0 m) (λ e. absurd (cc)) (λ r. mem-filter_of_mem p ys r h))
  ]

  pub mem_of_mem-filter : (p : A → Bool) {x : A} (xs : List A) → Mem x (filter p xs) → Mem x xs
  mem_of_mem-filter p [] m = m
  mem_of_mem-filter p (y ∷ ys) m = elim (Bool-cases (p y)) [
    | inl q ↦
        Or.elim Mem-prop (mem-cons.0 (rw q at m)) (λ e. rw e mem-cons_self)
          (λ r. mem-cons_of_mem y (mem_of_mem-filter p ys r))
    | inr q ↦ mem-cons_of_mem y (mem_of_mem-filter p ys (rw q at m))
  ]

  pub test_of_mem-filter : (p : A → Bool) {x : A} (xs : List A) → Mem x (filter p xs) → p x ≡ true
  test_of_mem-filter p [] m = absurd (not-mem-nil m)
  test_of_mem-filter p (y ∷ ys) m = elim (Bool-cases (p y)) [
    | inl q ↦
        Or.elim (Bool-set _ _) (mem-cons.0 (rw q at m)) (λ e. ap p e ∙ q)
          (λ r. test_of_mem-filter p ys r)
    | inr q ↦ test_of_mem-filter p ys (rw q at m)
  ]

  pub is_empty-eq-nil : (xs : List A) → is_empty xs ≡ true → xs ≡ []
  is_empty-eq-nil [] h = refl
  is_empty-eq-nil (x ∷ xs) h = cc
