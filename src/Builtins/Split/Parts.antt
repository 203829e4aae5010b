-- ===== src/Builtins/Split/Parts.antt =====
-- Splitting undoes joining, and what was split spells the text.
use Prim.Native.Char.{Char, code}
use Prim.Native.String.append
use text.Mathlib.TextEquality.{Char-path}
use eu_ai_act_compliance.Prelude.{
  String, true, false, [], ◌∷◌, none, some, ◌==◌, ◌≡◌, refl, ap, ◌∙◌, arith, ◌+s◌, Bool-cases,
  Option-cases, inl, inr, ==_iff,
}
use eu_ai_act_compliance.Builtins.Split.{
  extend, split, at_separator, last_cut, rsplit, Lacks, three_of,
}

module _ (sep : Char) where
  pub Lacks-append : (a b : String) → Lacks sep a → Lacks sep b → Lacks sep (a +s b)
  Lacks-append String.[] b ha hb = rw (append.nil b) hb
  Lacks-append (String.◌∷◌ c a) b (hc, ha) hb = rw (append.cons c a b) (hc, Lacks-append a b ha hb)

  pub split-lacking : (a : String) → Lacks sep a → split sep a ≡ a ∷ []
  unfolding split extend
  split-lacking String.[] h = refl
  split-lacking (String.◌∷◌ c a) (hc, ha) =
      let other : (code c == code sep) ≡ false = ground arith in rw (other, split-lacking a ha) refl

  pub split-append :
      (a b : String) → Lacks sep a → split sep (a +s String.◌∷◌ sep b) ≡ a ∷ split sep b
  unfolding split extend
  split-append String.[] b h =
      let same : (code sep == code sep) ≡ true = ground arith in
      rw (append.nil (String.◌∷◌ sep b), same) refl
  split-append (String.◌∷◌ c a) b (hc, ha) =
      let other : (code c == code sep) ≡ false = ground arith in
      rw (append.cons c a (String.◌∷◌ sep b), other, split-append a b ha) refl

  last_cut-lacking : (b : String) → Lacks sep b → last_cut sep b ≡ none
  unfolding last_cut at_separator
  last_cut-lacking String.[] h = refl
  last_cut-lacking (String.◌∷◌ c b) (hc, hb) =
      let other : (code c == code sep) ≡ false = ground arith in
      rw (last_cut-lacking b hb, other) refl

  last_cut-append :
      (a b : String) → Lacks sep b → last_cut sep (a +s String.◌∷◌ sep b) ≡ some (a, b)
  unfolding last_cut at_separator
  last_cut-append String.[] b h =
      let same : (code sep == code sep) ≡ true = ground arith in
      rw (append.nil (String.◌∷◌ sep b), last_cut-lacking b h, same) refl
  last_cut-append (String.◌∷◌ c a) b h =
      rw (append.cons c a (String.◌∷◌ sep b), last_cut-append a b h, last_cut) refl

  -- What a cut separates spells the text.
  last_cut-spells : (s a b : String) → last_cut sep s ≡ some (a, b) → s ≡ a +s String.◌∷◌ sep b
  unfolding last_cut at_separator
  last_cut-spells String.[] a b h = cc
  last_cut-spells (String.◌∷◌ c s) a b h = elim (Option-cases (last_cut sep s)) [
    | inr ((a', b'), e) ↦
        let z = rw e at h in
        let left : String.◌∷◌ c a' ≡ a = cc in
        let right : b' ≡ b = cc in
        rw (← left, ← right, append.cons c a' (String.◌∷◌ sep b'))
          (ap (String.◌∷◌ c) (last_cut-spells s a' b' e))
    | inl e ↦ elim (Bool-cases (code c == code sep)) [
      | inl q ↦
          let z = rw (e, q) at h in
          let left : "" ≡ a = cc in
          let right : s ≡ b = cc in
          rw (← left, ← right, append.nil (String.◌∷◌ sep s), Char-path c sep ((==_iff _ _).0 q))
            refl
      | inr q ↦ absurd (let z = rw (e, q) at h in cc)
    ]
  ]

  pub rsplit_two :
      (a b c : String)
      → Lacks sep b
      → Lacks sep c
      → rsplit sep ((a +s String.◌∷◌ sep b) +s String.◌∷◌ sep c) 2 ≡ a ∷ b ∷ c ∷ []
  unfolding rsplit
  rsplit_two a b c hb hc =
      rw (last_cut-append (a +s String.◌∷◌ sep b) c hc, last_cut-append a b hb, rsplit) refl

  pub three_of-rsplit :
      (s a b c : String)
      → three_of (rsplit sep s 2) ≡ some (a, b, c)
      → s ≡ (a +s String.◌∷◌ sep b) +s String.◌∷◌ sep c
  unfolding rsplit three_of
  three_of-rsplit s a b c h = elim (Option-cases (last_cut sep s)) [
    | inl e ↦ absurd (let z = rw (e, rsplit, three_of) at h in cc)
    | inr ((ab, c'), e) ↦ elim (Option-cases (last_cut sep ab)) [
      | inl q ↦ absurd (let z = rw (e, q, rsplit, three_of) at h in cc)
      | inr ((a', b'), q) ↦
          let z = rw (e, q, rsplit, three_of) at h in
          let x : a' ≡ a = cc in
          let y : b' ≡ b = cc in
          let w : c' ≡ c = cc in
          last_cut-spells s ab c' e ∙ rw (last_cut-spells ab a' b' q, x, y, w) refl
    ]
  ]
