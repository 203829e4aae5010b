-- ===== src/Exec.antt =====
-- Code that reads and writes a state and may raise: what was written before a raise stays written.
use eu_ai_act_compliance.Prelude.{◌≡◌, refl}
use eu_ai_act_compliance.Result.{Exception, Result, ok, err}

abbrev pub Exec {ℓ} : Type ℓ → Type ℓ → Type ℓ
Exec S A = S → Result A × S

module _ {ℓ} {S A : Type ℓ} where
  abbrev pub pure : A → Exec S A
  pure a s = (ok a, s)

  abbrev pub raise : Exception → Exec S A
  raise e s = (err e, s)

  -- a computation that does not touch the state
  abbrev pub lift : Result A → Exec S A
  lift r s = (r, s)

module _ {ℓ} {S A B : Type ℓ} where
  abbrev pub continue : Result A → (A → Exec S B) → Exec S B
  continue (ok value) next s = next value s
  continue (err raised) next s = (err raised, s)

  infixl 5 ◌>>=◌ ◌>>◌
  abbrev pub ◌>>=◌ : Exec S A → (A → Exec S B) → Exec S B
  ◌>>=◌ before next s = let (r, after) = before s in continue r next after

  abbrev pub ◌>>◌ : Exec S A → Exec S B → Exec S B
  before >> next = before >>= λ done. next

  -- Inversion of a block that did not raise.
  pub bind-eq-ok :
      (m : Exec S A) (f : A → Exec S B) (s : S) {b : B}
      → ((m >>= f) s).0 ≡ ok b
      → (a : A) × ((m s).0 ≡ ok a) × ((f a (m s).1).0 ≡ ok b)
  bind-eq-ok m f s {b = b} h = go (m s).0 refl h
    where
      go :
          (r : Result A)
          → (m s).0 ≡ r
          → (continue r f (m s).1).0 ≡ ok b
          → (a : A) × ((m s).0 ≡ ok a) × ((f a (m s).1).0 ≡ ok b)
      go (ok a) e k = (a, e, k)
      go (err e) q k = cc

  -- What holds of the state where a block raises, and of the state after the rest of it otherwise.
  pub continue_ind {κ} :
      (P : S → Type κ) (r : Result A) (f : A → Exec S B) (s : S)
      → P s
      → ((a : A) → P (f a s).1)
      → P (continue r f s).1
  continue_ind P (ok a) f s h k = k a
  continue_ind P (err e) f s h k = h

  -- A block goes on from the state that its first part leaves.
  pub bind-ok :
      (m : Exec S A) (f : A → Exec S B) (s : S) {a : A} → (m s).0 ≡ ok a → (m >>= f) s ≡ f a (m s).1
  bind-ok m f s h = rw h refl
