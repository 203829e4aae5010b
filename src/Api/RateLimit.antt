-- ===== src/Api/RateLimit.antt =====
-- src/api/rate_limit.py: a sliding window of requests for each client. The monotonic clock is read
-- by the caller and given to `check`, in ticks of a nanosecond.
pub mod Window
pub mod Sliding
pub mod Dict
use eu_ai_act_compliance.Prelude.{
  ℕ, ◌+◌, ◌-◌, ◌*◌, String, Bool, true, false, List, [], ◌∷◌, ◌++◌, Option, none, some, ltb, leb,
  length, str_eq, if◌then◌else◌,
}
use eu_ai_act_compliance.Result.{Result, ok, err, http_exception}

-- One second of the clock.
abbrev pub second : ℕ
second = 1_000_000_000

-- `defaultdict(deque)`: the value of a missing key is an empty deque.
unfoldable pub lookup : String → List (String × List ℕ) → List ℕ
lookup key [] = []
lookup key ((k, log) ∷ rest) = if str_eq key k then log else lookup key rest

unfoldable pub put : String → List ℕ → List (String × List ℕ) → List (String × List ℕ)
put key value [] = (key, value) ∷ []
put key value ((k, log) ∷ rest) =
    let others = put key value rest in if str_eq key k then (k, value) ∷ rest else (k, log) ∷ others

pub record RateLimiter : Type 0 where
  pub window_seconds : ℕ
  pub max_requests : ℕ
  pub request_log : List (String × List ℕ)

-- `RateLimiter(window_seconds=..., max_requests=...)`
unfoldable pub rate_limiter_of : (window_seconds max_requests : ℕ) → RateLimiter
rate_limiter_of window_seconds max_requests = record {
  window_seconds = window_seconds;
  max_requests = max_requests;
  request_log = [];
}

-- `while log and now - log[0] > self.window_seconds: log.popleft()`
unfoldable pub expire : (now window_seconds : ℕ) → List ℕ → List ℕ
expire now window [] = []
expire now window (t ∷ log) =
    let later = expire now window log in if ltb window (now - t) then later else t ∷ log

unfoldable pub too_many_requests : Result (Unit {0})
too_many_requests = err (http_exception 429 "Rate limit exceeded")

-- `RateLimiter.check`
unfoldable pub check :
    (now : ℕ) (client_key : String) → RateLimiter → Result (Unit {0}) × RateLimiter
unfolding too_many_requests
check now client_key limiter =
    let log = expire now limiter.window_seconds (lookup client_key limiter.request_log) in
    if leb limiter.max_requests (length log)
    then (
      too_many_requests,
      record limiter { request_log = put client_key log limiter.request_log },
    )
    else (
      ok tt,
      record limiter { request_log = put client_key (log ++ (now ∷ [])) limiter.request_log },
    )

-- `RateLimiter.reset`
unfoldable pub reset : RateLimiter → RateLimiter
reset limiter = record limiter { request_log = [] }

unfoldable pub rate_limiter : RateLimiter
unfolding rate_limiter_of
rate_limiter = rate_limiter_of (60 * second) 10

unfoldable pub public_rate_limiter : RateLimiter
unfolding rate_limiter_of
public_rate_limiter = rate_limiter_of (60 * second) 3

unfoldable pub login_rate_limiter : RateLimiter
unfolding rate_limiter_of
login_rate_limiter = rate_limiter_of (300 * second) 10

-- The host of the request's client, where the server knows it
unfoldable pub client_key_of : (client_host : Option String) → String
client_key_of none = "unknown"
client_key_of (some host) = host

-- `rate_limit`, `public_rate_limit` and `login_rate_limit`, each on its own limiter
unfoldable pub limit_request :
    (now : ℕ) (client_host : Option String) → RateLimiter → Result (Unit {0}) × RateLimiter
unfolding check client_key_of
limit_request now client_host limiter = check now (client_key_of client_host) limiter
