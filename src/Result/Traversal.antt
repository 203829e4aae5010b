-- ===== src/Result/Traversal.antt =====
-- What a comprehension over a function that may raise gives.
use mathlib.Core.Logic.{∥∥₁_elim, ∥∥₁_prop}
use mathlib.Core.Logic.Or
use mathlib.Core.List.{mem-cons, mem-cons_self, mem-cons_of_mem, not-mem-nil, Mem-prop}
use eu_ai_act_compliance.Prelude.{List, [], ◌∷◌, ◌≡◌, ◌↔◌, sym, ap, ◌∙◌, Mem}
use eu_ai_act_compliance.Result.{Result, ok, traverse, >>=-eq-ok, ◌>>=◌}

module _ {A B : Type 0} (f : A → Result B) where
  -- A comprehension that gave a list gave the image of every element and nothing else.
  pub traverse_iff :
      (xs : List A) {ys : List B}
      → traverse f xs ≡ ok ys
      → (y : B) → Mem y ys ↔ ∥ ((x : A) × Mem x xs × (f x ≡ ok y)) ∥₁
  unfolding traverse
  traverse_iff [] {ys} h y =
      let e : [] ≡ ys = cc in
      (
        (λ m. absurd (not-mem-nil (rw (← e) at m))),
        (λ t. ∥∥₁_elim t Mem-prop (λ (x, m, q). absurd (not-mem-nil m))),
      )
  traverse_iff (a ∷ xs) {ys} h y =
      let (b, fa, h') = >>=-eq-ok (f a) (λ b. traverse f xs >>= λ bs. ok (b ∷ bs)) h in
      let (bs, ft, h'') = >>=-eq-ok (traverse f xs) (λ bs. ok (b ∷ bs)) h' in
      let e : (b ∷ bs) ≡ ys = cc in
      let rest = traverse_iff xs ft y in
      rw (← e) (
        (λ m.
            Or.elim ∥∥₁_prop (mem-cons.0 m)
              (λ same. ∣ (a, mem-cons_self, fa ∙ ap (λ z. ok z) (sym same)) ∣₁)
              (λ later.
                ∥∥₁_elim (rest.0 later) ∥∥₁_prop
                  (λ (x, at, q). ∣ (x, mem-cons_of_mem a at, q) ∣₁))),
        (λ t. ∥∥₁_elim t Mem-prop (λ (x, at, q).
            Or.elim Mem-prop (mem-cons.0 at) (λ same. let y-b : y ≡ b = cc in rw y-b mem-cons_self)
              (λ later. mem-cons_of_mem b (rest.1 ∣ (x, later, q) ∣₁)))),
      )
