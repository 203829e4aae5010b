-- ===== src/Builtins/Digest/Ascii.antt =====
-- Which texts `compare_digest` takes, and what its answer says.
use eu_ai_act_compliance.Prelude.{
  String, true, false, ◌&&◌, str_eq_iff, str_eq_refl, ◌≡◌, refl, Bool-cases, inl, inr,
}
use eu_ai_act_compliance.Result.{type_error, ok, err}
use eu_ai_act_compliance.Builtins.Digest.{is_ascii, compare_digest}

pub compare_digest_self : (a : String) → is_ascii a ≡ true → compare_digest a a ≡ ok true
unfolding compare_digest
compare_digest_self a h = rw (h, str_eq_refl a) refl

pub compare_digest-true : (a b : String) → compare_digest a b ≡ ok true → a ≡ b
unfolding compare_digest
compare_digest-true a b h = elim (Bool-cases (is_ascii a && is_ascii b)) [
  | inl q ↦ (str_eq_iff a b).0 (let z = rw q at h in cc)
  | inr q ↦ absurd (let z = rw q at h in cc)
]

pub compare_digest-not_ascii :
    (a b : String)
    → is_ascii a ≡ false
    → compare_digest a b
      ≡ err (type_error "comparing strings with non-ASCII characters is not supported")
unfolding compare_digest
compare_digest-not_ascii a b h = rw h refl
