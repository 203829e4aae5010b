-- ===== src/Legal/Queries/Product.antt =====
-- The rows of a join.
use mathlib.Core.HLevel.{×_prop}
use mathlib.Core.Logic.{∥∥₁_elim}
use mathlib.Core.Logic.Or
use mathlib.Core.List.{
  Mem-prop, not-mem-nil, mem-cons, mem-cons_self, mem-cons_of_mem, mem-append, mem-append_left,
  mem-append_right, mem-map, mem-map_of_mem,
}
use eu_ai_act_compliance.Prelude.{List, [], ◌∷◌, Mem, ◌≡◌, ap}
use eu_ai_act_compliance.Legal.Queries.{product}

module _ {A B : Type 0} where
  pub mem_of_mem-product :
      (a : A) (b : B) (xs : List A) (ys : List B) → Mem (a, b) (product xs ys) → Mem a xs × Mem b ys
  mem_of_mem-product a b [] ys m = absurd (not-mem-nil m)
  mem_of_mem-product a b (x ∷ xs) ys m =
      Or.elim (×_prop Mem-prop Mem-prop) (mem-append.0 m)
        (λ here. ∥∥₁_elim ((mem-map {l = ys}).0 here) (×_prop Mem-prop Mem-prop) (λ (y, at, e).
          let ea : x ≡ a = ap (λ (q : A × B). q.0) e in
          let eb : y ≡ b = ap (λ (q : A × B). q.1) e in (rw ea mem-cons_self, rw eb at at)))
        (λ there. let (ma, mb) = mem_of_mem-product a b xs ys there in (mem-cons_of_mem x ma, mb))

  pub mem-product :
      (a : A) (b : B) (xs : List A) (ys : List B) → Mem a xs → Mem b ys → Mem (a, b) (product xs ys)
  mem-product a b [] ys ma mb = absurd (not-mem-nil ma)
  mem-product a b (x ∷ xs) ys ma mb =
      Or.elim Mem-prop (mem-cons.0 ma)
        (λ e. rw e (mem-append_left _ (mem-map_of_mem (λ y. (x, y)) mb)))
        (λ r. mem-append_right _ (mem-product a b xs ys r mb))
