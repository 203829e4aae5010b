-- ===== src/Api/RateLimit/Window.antt =====
-- src/api/rate_limit.py: what the limiter lets through, told by the whole history of a client.
use eu_ai_act_compliance.Prelude.{
  ℕ, ◌-◌, ◌≤◌, String, Bool, true, false, List, [], ◌∷◌, ◌++◌, ◌≡◌, inl, inr, refl, arith, ltb, leb,
  length, All, filter, filter-append, str_eq, Bool-cases, if◌then◌else◌,
}
use eu_ai_act_compliance.Prelude.Sort.{IsSorted}
use eu_ai_act_compliance.Result.{Exception, ok, err}
use eu_ai_act_compliance.Api.RateLimit.{RateLimiter, rate_limiter_of, expire, check, lookup}

-- A time that is still within the window at `now`.
unfoldable pub fresh : (window now : ℕ) → ℕ → Bool
fresh window now t = leb (now - t) window

module _ {A : Type 0} where
  filter-eq_self : (p : A → Bool) (xs : List A) → All (λ x. p x ≡ true) xs → filter p xs ≡ xs
  filter-eq_self p [] h = refl
  filter-eq_self p (x ∷ xs) (h, hs) = rw (h, filter-eq_self p xs hs) refl

  pub filter-filter :
      (p q : A → Bool) (xs : List A)
      → ((x : A) → q x ≡ true → p x ≡ true)
      → filter q (filter p xs) ≡ filter q xs
  filter-filter p q [] h = refl
  filter-filter p q (x ∷ xs) h = elim (Bool-cases (p x)) [
    | inl e ↦ rw (e, filter-filter p q xs h) refl
    | inr e ↦ elim (Bool-cases (q x)) [
      | inl f ↦ let k = h x f in absurd (cc)
      | inr f ↦ rw (e, f) (filter-filter p q xs h)
    ]
  ]

  All-filter : (P : A → Type 0) (p : A → Bool) (xs : List A) → All P xs → All P (filter p xs)
  All-filter P p [] h = tt
  All-filter P p (x ∷ xs) (h, hs) = elim (Bool-cases (p x)) [
    | inl e ↦ rw e (h, All-filter P p xs hs)
    | inr e ↦ rw e (All-filter P p xs hs)
  ]

  All-append : (P : A → Type 0) (xs : List A) (y : A) → All P xs → P y → All P (xs ++ (y ∷ []))
  All-append P [] y h p = (p, tt)
  All-append P (x ∷ xs) y (h, hs) p = (h, All-append P xs y hs p)

  All-map : {P Q : A → Type 0} (xs : List A) → ((x : A) → P x → Q x) → All P xs → All Q xs
  All-map [] f h = tt
  All-map (x ∷ xs) f (h, hs) = (f x h, All-map xs f hs)

filter-IsSorted : (p : ℕ → Bool) (xs : List ℕ) → IsSorted ltb xs → IsSorted ltb (filter p xs)
filter-IsSorted p [] h = tt
filter-IsSorted p (x ∷ xs) (h, hs) = elim (Bool-cases (p x)) [
  | inl e ↦ rw e (All-filter _ p xs h, filter-IsSorted p xs hs)
  | inr e ↦ rw e (filter-IsSorted p xs hs)
]

append-IsSorted :
    (xs : List ℕ) (now : ℕ)
    → IsSorted ltb xs
    → All (λ t. t ≤ now) xs
    → IsSorted ltb (xs ++ (now ∷ []))
append-IsSorted [] now h k = (tt, tt)
append-IsSorted (x ∷ xs) now (h, hs) (k, ks) =
    (All-append _ xs now h (ground arith), append-IsSorted xs now hs ks)

-- Dropping from the front until the first fresh time keeps exactly the fresh ones.
expire-eq-filter :
    (now window : ℕ) (log : List ℕ)
    → IsSorted ltb log
    → expire now window log ≡ filter (fresh window now) log
unfolding expire fresh
expire-eq-filter now window [] h = refl
expire-eq-filter now window (t ∷ log) (h, hs) = elim (Bool-cases (ltb window (now - t))) [
  | inl e ↦
      let stale : leb (now - t) window ≡ false = ground arith in
      rw (e, stale) (expire-eq-filter now window log hs)
  | inr e ↦
      let kept : leb (now - t) window ≡ true = ground arith in
      rw (e, kept, filter-eq_self (fresh window now) log (All-map log (λ x p. ground arith) h)) refl
]

-- The history: the times at which each client was let through.
abbrev pub History : Type 0
History = String → List ℕ

unfoldable pub let_through : String → ℕ → History → History
let_through key now h k = if str_eq k key then h k ++ (now ∷ []) else h k

-- What a limiter and the histories can be once the clock shows `clock`, which never goes back. A
-- check that lets the request through adds to the history of its client; a refused one does not.
pub data Reached (window max : ℕ) : ℕ → RateLimiter → History → Type 0 where
  start : Reached window max 0 (rate_limiter_of window max) (λ k. [])
  admit :
      {clock now : ℕ} {limiter after : RateLimiter} {h : History} (key : String)
      → Reached window max clock limiter h
      → clock ≤ now
      → check now key limiter ≡ (ok tt, after)
      → Reached window max now after (let_through key now h)
  refuse :
      {clock now : ℕ} {limiter after : RateLimiter} {h : History} {e : Exception} (key : String)
      → Reached window max clock limiter h
      → clock ≤ now
      → check now key limiter ≡ (err e, after)
      → Reached window max now after h

-- The log of one client against its history: what was fresh when the log was last cut.
pub record Agrees (window clock : ℕ) (log history : List ℕ) : Type 0 where
  pub cut : ℕ
  pub cut_past : cut ≤ clock
  pub log-eq : log ≡ filter (fresh window cut) history
  pub in_order : IsSorted ltb history
  pub all_past : All (λ t. t ≤ clock) history

pub record Consistent (window max clock : ℕ) (limiter : RateLimiter) (h : History) : Type 0 where
  pub window-eq : limiter.window_seconds ≡ window
  pub max-eq : limiter.max_requests ≡ max
  pub agrees : (key : String) → Agrees window clock (lookup key limiter.request_log) (h key)
  pub bounded : (key : String) → length (lookup key limiter.request_log) ≤ max

pub fresh_earlier :
    (window : ℕ) {cut now : ℕ} (t : ℕ)
    → cut ≤ now
    → fresh window now t ≡ true
    → fresh window cut t ≡ true
unfolding fresh
fresh_earlier window t le h = ground arith

fresh_now : (window now : ℕ) → fresh window now now ≡ true
unfolding fresh
fresh_now window now = ground arith

module _ {window clock now : ℕ} {log history : List ℕ} (le : clock ≤ now) where
  pub expire-history :
      Agrees window clock log history → expire now window log ≡ filter (fresh window now) history
  expire-history a =
      rw
        (
          a.log-eq,
          expire-eq-filter now window (filter (fresh window a.cut) history)
              (filter-IsSorted (fresh window a.cut) history a.in_order),
        )
        (filter-filter (fresh window a.cut) (fresh window now) history
          (λ t. fresh_earlier window t (omega (arith, le, a.cut_past))))

  pub later : Agrees window clock log history → Agrees window now log history
  later a = record {
    cut = a.cut;
    cut_past = omega (arith, le, a.cut_past);
    log-eq = a.log-eq;
    in_order = a.in_order;
    all_past = All-map history (λ t p. omega (arith, p, le)) a.all_past;
  }

  pub refused : Agrees window clock log history → Agrees window now (expire now window log) history
  refused a = record {
    cut = now;
    cut_past = omega arith;
    log-eq = expire-history a;
    in_order = a.in_order;
    all_past = All-map history (λ t p. omega (arith, p, le)) a.all_past;
  }

  pub admitted :
      Agrees window clock log history
      → Agrees window now (expire now window log ++ (now ∷ [])) (history ++ (now ∷ []))
  admitted a = record {
    cut = now;
    cut_past = omega arith;
    log-eq =
        rw
          (
            expire-history a,
            filter-append (fresh window now) history (now ∷ []),
            fresh_now window now,
          )
          refl;
    in_order = append-IsSorted history now a.in_order past;
    all_past = All-append _ history now past (omega arith);
  }
    where
      past : All (λ t. t ≤ now) history
      past = All-map history (λ t p. omega (arith, p, le)) a.all_past
