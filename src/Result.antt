-- ===== src/Result.antt =====
-- The exceptions that the program raises and catches, and functions that may raise.
pub mod Traversal
use eu_ai_act_compliance.Prelude.{
  ℕ, String, Bool, true, false, List, [], ◌∷◌, ◌≡◌, ◌⊎◌, inl, inr, refl,
}

-- `environment` stands for whatever a library, the database or the network raises.
pub data Exception : Type 0 where
  value_error : String → Exception
  type_error : String → Exception
  overflow_error : Exception
  index_error : Exception
  key_error : Exception
  stop_iteration : Exception
  assertion_error : String → Exception
  validation_error : String → Exception
  structured_output_error : (response_model raw_output : String) → Exception
  session_config_error : String → Exception
  weak_password_error : String → Exception
  file_validation_error : String → Exception
  tenant_context_error : Exception
  cross_tenant_write_error : Exception
  not_authenticated : Exception
  not_authorised : Exception
  http_exception : (status_code : ℕ) → String → Exception
  environment : ℕ → Exception

pub data Result {ℓ} (A : Type ℓ) : Type ℓ where
  ok : A → Result A
  err : Exception → Result A

infixl 5 ◌>>=◌ ◌>>◌
abbrev pub ◌>>=◌ {ℓ κ} : {A : Type ℓ} {B : Type κ} → Result A → (A → Result B) → Result B
err raised >>= next = err raised
ok value >>= next = next value

abbrev pub ◌>>◌ {ℓ} : {B : Type ℓ} → Result (Unit {0}) → Result B → Result B
first >> second = first >>= λ done. second

-- `if not test: raise e`
abbrev pub require : Bool → Exception → Result (Unit {0})
require true e = ok tt
require false e = err e

pub ok_injective {ℓ} : {A : Type ℓ} {a b : A} → ok a ≡ ok b → a ≡ b
ok_injective h = cc

-- What a chain that did not raise has gone through.
pub >>=-eq-ok {ℓ κ} :
    {A : Type ℓ} {B : Type κ} (before : Result A) (next : A → Result B) {b : B}
    → (before >>= next) ≡ ok b
    → (value : A) × (before ≡ ok value) × (next value ≡ ok b)
>>=-eq-ok (err raised) next h = cc
>>=-eq-ok (ok value) next h = (value, refl, h)

-- `[f(x) for x in xs]` for an `f` that may raise
unfoldable pub traverse {ℓ κ} :
    {A : Type ℓ} {B : Type κ} → (A → Result B) → List A → Result (List B)
traverse f [] = ok []
traverse f (x ∷ xs) = do y ← f x; ys ← traverse f xs; ok (y ∷ ys)

pub Result-cases {ℓ} :
    {A : Type ℓ} (r : Result A) → ((a : A) × (r ≡ ok a)) ⊎ ((e : Exception) × (r ≡ err e))
Result-cases (ok a) = inl (a, refl)
Result-cases (err e) = inr (e, refl)
