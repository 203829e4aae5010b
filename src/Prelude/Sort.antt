-- ===== src/Prelude/Sort.antt =====
-- `list.sort`: a stable sort that only asks whether one element is less than another.
use mathlib.Core.Path.{◌≡◌, refl}
use mathlib.Core.Bool.{Bool, true, false}
use mathlib.Core.List.{List, [], ◌∷◌, Perm}
use mathlib.Core.List.Perm
use eu_ai_act_compliance.Prelude.Tests.{if◌then◌else◌, Bool-cases}
use eu_ai_act_compliance.Prelude.Lists.{All, is_empty}
use mathlib.Core.Logic.{inl, inr}

-- What `<` has to satisfy for the result to be in order.
pub record IsStrictWeak {ℓ} {A : Type ℓ} (lt : A → A → Bool) : Type ℓ where
  pub asym : (x y : A) → lt x y ≡ true → lt y x ≡ false
  pub not_lt_trans : (x y z : A) → lt y x ≡ false → lt z y ≡ false → lt z x ≡ false

module _ {ℓ} {A : Type ℓ} (lt : A → A → Bool) where
  -- An element goes in front of the elements that are equal to it.
  insert_sorted : A → List A → List A
  insert_sorted x [] = x ∷ []
  insert_sorted x (y ∷ ys) =
      let rest = insert_sorted x ys in if lt y x then y ∷ rest else x ∷ y ∷ ys

  unfoldable pub sort : List A → List A
  unfolding insert_sorted
  sort [] = []
  sort (x ∷ xs) = insert_sorted x (sort xs)

  is_empty-insert_sorted : (x : A) (ys : List A) → is_empty (insert_sorted x ys) ≡ false
  unfolding insert_sorted
  is_empty-insert_sorted x [] = refl
  is_empty-insert_sorted x (y ∷ ys) = elim (Bool-cases (lt y x)) [
    | inl q ↦ rw q refl
    | inr q ↦ rw q refl
  ]

  pub is_empty-sort : (xs : List A) → is_empty (sort xs) ≡ is_empty xs
  unfolding sort
  is_empty-sort [] = refl
  is_empty-sort (x ∷ xs) = is_empty-insert_sorted x (sort xs)

  insert_sorted-perm : (x : A) (ys : List A) → Perm (insert_sorted x ys) (x ∷ ys)
  unfolding insert_sorted
  insert_sorted-perm x [] = Perm.rfl
  insert_sorted-perm x (y ∷ ys) = elim (Bool-cases (lt y x)) [
    | inl q ↦ rw q (Perm.trans (Perm.cons y (insert_sorted-perm x ys)) (Perm.swap x y ys))
    | inr q ↦ rw q Perm.rfl
  ]

  -- Sorting loses no element and adds none.
  pub sort-perm : (xs : List A) → Perm (sort xs) xs
  unfolding sort
  sort-perm [] = Perm.rfl
  sort-perm (x ∷ xs) = Perm.trans (insert_sorted-perm x (sort xs)) (Perm.cons x (sort-perm xs))

  -- No element is less than one that stands before it.
  abbrev pub IsSorted : List A → Type 0
  IsSorted [] = Unit
  IsSorted (x ∷ xs) = All (λ y. lt y x ≡ false) xs × IsSorted xs

  All-insert_sorted :
      (P : A → Type 0) (x : A) (ys : List A) → P x → All P ys → All P (insert_sorted x ys)
  unfolding insert_sorted
  All-insert_sorted P x [] p h = (p, tt)
  All-insert_sorted P x (y ∷ ys) p h = elim (Bool-cases (lt y x)) [
    | inl q ↦ rw q (h.0, All-insert_sorted P x ys p h.1)
    | inr q ↦ rw q (p, h)
  ]

module _ {ℓ} {A : Type ℓ} {lt : A → A → Bool} (order : IsStrictWeak lt) where
  All-not_lt_trans :
      (x y : A) (zs : List A)
      → lt y x ≡ false
      → All (λ z. lt z y ≡ false) zs
      → All (λ z. lt z x ≡ false) zs
  All-not_lt_trans x y [] h k = tt
  All-not_lt_trans x y (z ∷ zs) h k =
      (order.not_lt_trans x y z h k.0, All-not_lt_trans x y zs h k.1)

  insert_sorted-IsSorted :
      (x : A) (ys : List A) → IsSorted lt ys → IsSorted lt (insert_sorted lt x ys)
  unfolding insert_sorted
  insert_sorted-IsSorted x [] h = (tt, tt)
  insert_sorted-IsSorted x (y ∷ ys) h = elim (Bool-cases (lt y x)) [
    | inl q ↦
        rw q (All-insert_sorted lt _ x ys (order.asym y x q) h.0, insert_sorted-IsSorted x ys h.1)
    | inr q ↦ rw q ((q, All-not_lt_trans x y ys q h.0), h)
  ]

  pub sort-IsSorted : (xs : List A) → IsSorted lt (sort lt xs)
  unfolding sort
  sort-IsSorted [] = tt
  sort-IsSorted (x ∷ xs) = insert_sorted-IsSorted x (sort lt xs) (sort-IsSorted xs)
