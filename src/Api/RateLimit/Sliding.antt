-- ===== src/Api/RateLimit/Sliding.antt =====
-- src/api/rate_limit.py: the theorems on the sliding window.
use eu_ai_act_compliance.Prelude.{
  ℕ, ◌≤◌, ◌<◌, String, true, false, List, [], ◌∷◌, ◌++◌, ◌≡◌, ◌↔◌, ◌⊎◌, inl, inr, refl, ap, ◌∙◌,
  arith, leb, length, length-append, length-filter-le, filter, str_eq, str_eq_iff, str_eq_refl,
  Bool-cases,
}
use eu_ai_act_compliance.Result.{Exception, ok, err}
use eu_ai_act_compliance.Api.RateLimit.{
  RateLimiter, rate_limiter_of, expire, check, lookup, put, too_many_requests,
}
use eu_ai_act_compliance.Api.RateLimit.Dict.{lookup-put, lookup-put-of_ne}
use eu_ai_act_compliance.Api.RateLimit.Window.{
  fresh, History, let_through, Reached, start, admit, refuse, Agrees, Consistent, fresh_earlier,
  expire-history, later, refused, admitted, filter-filter,
}

module _ (now : ℕ) (key : String) (limiter : RateLimiter) where
  kept : List ℕ
  kept = expire now limiter.window_seconds (lookup key limiter.request_log)

  with_log : List ℕ → RateLimiter
  with_log log = record limiter { request_log = put key log limiter.request_log }

  check-under :
      length kept < limiter.max_requests
      → check now key limiter ≡ (ok tt, with_log (kept ++ (now ∷ [])))
  unfolding check kept with_log
  check-under h = let t : leb limiter.max_requests (length kept) ≡ false = ground arith in rw t refl

  check-full :
      limiter.max_requests ≤ length kept
      → check now key limiter ≡ (too_many_requests, with_log kept)
  unfolding check kept with_log
  check-full h = let t : leb limiter.max_requests (length kept) ≡ true = ground arith in rw t refl

length-expire-le : (now window : ℕ) (log : List ℕ) → length (expire now window log) ≤ length log
unfolding expire
length-expire-le now window [] = omega arith
length-expire-le now window (t ∷ log) = ground (arith, length-expire-le now window log)

full-or-under : (a b : ℕ) → (a < b) ⊎ (b ≤ a)
full-or-under a b = ground arith

module _ {window max clock now : ℕ} {limiter : RateLimiter} {h : History} (le : clock ≤ now)
    (c : Consistent window max clock limiter h) (key : String) where
  kept-eq : kept now key limiter ≡ expire now window (lookup key limiter.request_log)
  unfolding kept
  kept-eq = rw c.window-eq refl

  Consistent-of_log :
      (log : List ℕ) (h' : History)
      → Agrees window now log (h' key)
      → length log ≤ max
      → ((k : String) → str_eq k key ≡ false → h' k ≡ h k)
      → Consistent window max now (with_log now key limiter log) h'
  unfolding with_log
  Consistent-of_log log h' a bound others = record {
    window-eq = c.window-eq;
    max-eq = c.max-eq;
    agrees = λ k. elim (Bool-cases (str_eq k key)) [
      | inl q ↦
          let same : k ≡ key = (str_eq_iff k key).0 q in
          rw (same, lookup-put key log limiter.request_log) a
      | inr q ↦
          rw (lookup-put-of_ne k key log limiter.request_log q, others k q) (later le (c.agrees k))
    ];
    bounded = λ k. elim (Bool-cases (str_eq k key)) [
      | inl q ↦
          let same : k ≡ key = (str_eq_iff k key).0 q in
          rw (same, lookup-put key log limiter.request_log) bound
      | inr q ↦ rw (lookup-put-of_ne k key log limiter.request_log q) (c.bounded k)
    ];
  }

  Consistent-refuse :
      {after : RateLimiter} {e : Exception}
      → check now key limiter ≡ (err e, after)
      → Consistent window max now after h
  Consistent-refuse {after} {e} q =
      elim (full-or-under (length (kept now key limiter)) limiter.max_requests) [
        | inl few ↦ absurd (let k = check-under now key limiter few in cc)
        | inr full ↦
            let k = check-full now key limiter full in
            let same : with_log now key limiter (kept now key limiter) ≡ after = cc in
            rw (← same, kept-eq)
              (Consistent-of_log _ h (refused le (c.agrees key))
                (omega (
                  arith,
                  length-expire-le now window (lookup key limiter.request_log),
                  c.bounded key,
                ))
                (λ k other. refl))
      ]

  Consistent-admit :
      {after : RateLimiter}
      → check now key limiter ≡ (ok tt, after)
      → Consistent window max now after (let_through key now h)
  unfolding let_through too_many_requests
  Consistent-admit {after} q =
      elim (full-or-under (length (kept now key limiter)) limiter.max_requests) [
        | inl few ↦
            let k = check-under now key limiter few in
            let same : with_log now key limiter (kept now key limiter ++ (now ∷ [])) ≡ after = cc in
            rw (← same) (
              Consistent-of_log _ _ (rw (str_eq_refl key, kept-eq) (admitted le (c.agrees key)))
                (omega (arith, length-append (kept now key limiter) (now ∷ []), few, c.max-eq))
                (λ k other. rw other refl))
        | inr full ↦ absurd (let k = check-full now key limiter full in cc)
      ]

Reached-Consistent :
    {window max clock : ℕ} {limiter : RateLimiter} {h : History}
    → Reached window max clock limiter h
    → Consistent window max clock limiter h
unfolding rate_limiter_of lookup
Reached-Consistent start = record {
  window-eq = refl;
  max-eq = refl;
  agrees = λ key. record {
    cut = 0;
    cut_past = omega arith;
    log-eq = refl;
    in_order = tt;
    all_past = tt;
  };
  bounded = λ key. omega arith;
}
Reached-Consistent (admit key r le q) = Consistent-admit le (Reached-Consistent r) key q
Reached-Consistent (refuse key r le q) = Consistent-refuse le (Reached-Consistent r) key q

module _ {window max clock : ℕ} {limiter : RateLimiter} {h : History}
    (r : Reached window max clock limiter h) (key : String) where
  -- At any time from the last check on, a limiter in use lets a request through exactly when fewer
  -- than the maximum of this client's earlier requests that were let through are at most a window
  -- old, whatever was dropped from the logs meanwhile and whatever other clients did.
  pub check-sliding_window :
      {now : ℕ}
      → clock ≤ now
      → ((check now key limiter).0 ≡ ok tt) ↔ (length (filter (fresh window now) (h key)) < max)
  unfolding too_many_requests
  check-sliding_window {now} le =
      let c = Reached-Consistent r in
      let same : kept now key limiter ≡ filter (fresh window now) (h key) =
        kept-eq le c key ∙ expire-history le (c.agrees key) in
      let size : length (kept now key limiter) ≡ length (filter (fresh window now) (h key)) =
        ap (λ l. length l) same in
      let m = c.max-eq in
      elim (full-or-under (length (kept now key limiter)) limiter.max_requests) [
        | inl few ↦ (
          (λ q. omega (arith, few, size, m)),
          (λ q. ap (λ p. p.0) (check-under now key limiter few)),
        )
        | inr full ↦ (
          (λ q. absurd (let k = ap (λ p. p.0) (check-full now key limiter full) in cc)),
          (λ q. absurd (omega (arith, full, size, m, q))),
        )
      ]

  -- A limiter in use has let through, for any client and in the window that ends at the last check,
  -- at most the maximum of requests, and keeps at most that many times for the client.
  pub history-bounded :
      (length (filter (fresh window clock) (h key)) ≤ max)
      × (length (lookup key limiter.request_log) ≤ max)
  history-bounded =
      let c = Reached-Consistent r in
      let a = c.agrees key in
      let kept_fresh : filter (fresh window clock) (lookup key limiter.request_log)
          ≡ filter (fresh window clock) (h key) =
        rw a.log-eq (
          filter-filter (fresh window a.cut) (fresh window clock) (h key)
            (λ t. fresh_earlier window t a.cut_past)) in
      let size = ap (λ l. length l) kept_fresh in
      let le = length-filter-le (fresh window clock) (lookup key limiter.request_log) in
      (omega (arith, size, le, c.bounded key), c.bounded key)
