-- ===== src/Auth/Passwords/Verified.antt =====
-- src/auth/passwords.py: which passwords a stored hash verifies.
use eu_ai_act_compliance.Prelude.{
  ℕ, String, true, false, List, [], ◌∷◌, some, ◌≡◌, ◌↔◌, refl, ap, sym, ◌∙◌, arith, Bool-cases, inl,
  inr,
}
use eu_ai_act_compliance.Result.{type_error, Result, ok, err, ◌>>=◌, >>=-eq-ok}
use eu_ai_act_compliance.Builtins.Decimal.{ℤ, str_int}
use eu_ai_act_compliance.Builtins.Decimal.RoundTrip.{int_of-str_int, str_int-Lacks}
use eu_ai_act_compliance.Builtins.Digest.{is_ascii, compare_digest, is_value_error}
use eu_ai_act_compliance.Builtins.Digest.Ascii.{compare_digest_self, compare_digest-true}
use eu_ai_act_compliance.Builtins.Hex.{hex, fromhex}
use eu_ai_act_compliance.Builtins.Hex.RoundTrip.{Bytes, fromhex-hex, hex-Lacks, hex-is_ascii}
use eu_ai_act_compliance.Builtins.Split.{Lacks, split, four_of}
use eu_ai_act_compliance.Builtins.Split.Parts.{split-append, split-lacking}
use eu_ai_act_compliance.Auth.Passwords.{
  Pbkdf2, algorithm, or_value_error, stored_form, hash_password, digest_of, with_expected,
  recompute, compare_with, verify_password,
}

hex-injective : (a b : List ℕ) → Bytes a → Bytes b → hex a ≡ hex b → a ≡ b
hex-injective a b ha hb e =
    let k : some a ≡ some b = sym (fromhex-hex a ha) ∙ ap fromhex e ∙ fromhex-hex b hb in cc

split-stored_form :
    (iterations salt digest : String)
    → Lacks "$" iterations
    → Lacks "$" salt
    → Lacks "$" digest
    → split "$" (stored_form iterations salt digest) ≡ algorithm ∷ iterations ∷ salt ∷ digest ∷ []
unfolding stored_form
split-stored_form iterations salt digest hi hs hd =
    let ha : Lacks "$" algorithm = omega arith in
    split-append "$" algorithm _ ha
    ∙ ap (λ l. algorithm ∷ l)
        (split-append "$" iterations _ hi
          ∙ ap (λ l. iterations ∷ l)
              (split-append "$" salt _ hs ∙ ap (λ l. salt ∷ l) (split-lacking "$" digest hd)))

module _ (hashing : Pbkdf2) where
  compare_with-true :
      (expected : List ℕ) (r : Result (List ℕ))
      → ((d : List ℕ) → r ≡ ok d → Bytes d)
      → Bytes expected
      → (compare_with hashing (with_expected hashing (hex expected) r) ≡ ok true)
        ↔ (r ≡ ok expected)
  unfolding compare_with with_expected
  compare_with-true expected (ok d) small he = (
    λ h.
        ap (λ x. ok x)
          (hex-injective d expected (small d refl) he
            (compare_digest-true (hex d) (hex expected) h)),
    λ h.
        (let same : d ≡ expected = cc in
          rw same (compare_digest_self (hex expected) (hex-is_ascii expected he))),
  )
  compare_with-true expected (err e) small he = elim (Bool-cases (is_value_error e)) [
    | inl q ↦ rw q (λ h. cc, λ h. cc)
    | inr q ↦ rw q (λ h. cc, λ h. cc)
  ]

  verify-stored_form :
      (password printed : String) (salt : List ℕ) (digest : String) (iterations : ℤ)
      → str_int iterations ≡ ok printed
      → Bytes salt
      → Lacks "$" digest
      → verify_password hashing password (stored_form printed (hex salt) digest)
        ≡ compare_with hashing
            (with_expected hashing digest (hashing.pbkdf2_hmac password salt iterations))
  unfolding verify_password recompute digest_of or_value_error four_of
  verify-stored_form password printed salt digest iterations e hs hd =
      rw
        (
          split-stored_form printed (hex salt) digest (str_int-Lacks "$" refl iterations e)
              (hex-Lacks "$" salt refl hs) hd,
          fromhex-hex salt hs,
          int_of-str_int hashing.unicode_digit iterations e,
        )
        refl

  -- A password verifies against the stored hash of another exactly when PBKDF2 gives both the same digest
  -- with the salt and the number of iterations that were stored; so the password itself does.
  pub verify_password-hash_password :
      (salt : List ℕ) (password : String) (iterations : ℤ) (attempt : String) {stored : String}
      → Bytes salt
      → hash_password hashing salt password iterations ≡ ok stored
      → (verify_password hashing attempt stored ≡ ok true) ↔ (
          hashing.pbkdf2_hmac attempt salt iterations
          ≡ hashing.pbkdf2_hmac password salt iterations)
  unfolding hash_password
  verify_password-hash_password salt password iterations attempt {stored} hs h =
      let (digest, hashed, h') =
        >>=-eq-ok (hashing.pbkdf2_hmac password salt iterations)
          (λ digest.
            str_int iterations >>= λ printed. ok (stored_form printed (hex salt) (hex digest)))
          h in
      let (printed, e, last) =
        >>=-eq-ok (str_int iterations) (λ printed. ok (stored_form printed (hex salt) (hex digest)))
          h' in
      let form : stored_form printed (hex salt) (hex digest) ≡ stored = cc in
      let small = hashing.digest-Bytes password salt iterations hashed in
      rw
        (
          ← form,
          hashed,
          verify-stored_form attempt printed salt (hex digest) iterations e hs
              (hex-Lacks "$" digest refl small),
        )
        (compare_with-true digest (hashing.pbkdf2_hmac attempt salt iterations)
          (λ d e. hashing.digest-Bytes attempt salt iterations e) small)

  -- A stored value with the four parts whose digest holds a character that is not ASCII does not fail the
  -- log-in with False: where PBKDF2 succeeds, its verification raises a TypeError.
  pub verify_password-not_ascii :
      (password printed : String) (salt : List ℕ) (iterations : ℤ) (expected : String)
      (digest : List ℕ)
      → str_int iterations ≡ ok printed
      → Bytes salt
      → hashing.pbkdf2_hmac password salt iterations ≡ ok digest
      → Lacks "$" expected
      → is_ascii expected ≡ false
      → verify_password hashing password (stored_form printed (hex salt) expected)
        ≡ err (type_error "comparing strings with non-ASCII characters is not supported")
  unfolding compare_with with_expected compare_digest
  verify_password-not_ascii password printed salt iterations expected digest e hs hashed lacks odd =
      let small = hashing.digest-Bytes password salt iterations hashed in
      rw
        (
          verify-stored_form password printed salt expected iterations e hs lacks,
          hashed,
          hex-is_ascii digest small,
          odd,
        )
        refl
