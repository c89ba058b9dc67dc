-- ===== src/Shortener/Limits.antt =====
-- RateLimiter.h and mw_RateLimit.h. The arithmetic of doubles is a parameter; a time point of the
-- steady clock is a number of its ticks.
pub mod Bursts
pub mod Wholes
mod Examples
use http.Prelude.{
  ℕ, Bool, true, false, List, [], ◌∷◌, Option, none, some, if◌then◌else◌, ◌==◌, text_eq,
}
use http.Std.Text.{Text, codes, is_empty}
use http.Std.Map.{lookup, insert}
use http.Http.Request.{HttpRequest, get_header}
use http.Http.Response.{
  HttpResponse, new_response, set_status_code, add_header, set_body, forbidden_403,
}
use http.Exceptions.{Outcome, Raised, response, done, raise}
use http.Middleware.{Middleware}
use http.Shortener.{Metrics, next}

pub record Doubles (D : Type 0) : Type 0 where
  pub zero_double : D
  pub plus : D → D → D
  pub times : D → D → D
  pub minimum : D → D → D
  -- `- 1.0` and `>= 1.0`
  pub minus_one : D → D
  pub at_least_one : D → Bool
  -- the seconds from the second time point to the first
  pub seconds : ℕ → ℕ → D

pub record Bucket (D : Type 0) : Type 0 where
  pub tokens : D
  pub last : ℕ

pub record RateLimiter (D : Type 0) : Type 0 where
  pub buckets : List (Text × Bucket D)
  pub rate : D
  pub burst : D

module _ {D : Type 0} (double : Doubles D) where
  -- m_[key]
  unfoldable pub bucket_of : Text → RateLimiter D → Bucket D
  bucket_of key r = elim (lookup key r.buckets) [
    | some b ↦ b
    | none ↦ record { tokens = double.zero_double; last = 0 }
  ]

  -- a bucket that was never used is filled
  unfoldable pub started : D → ℕ → Bucket D → Bucket D
  started burst now b = if b.last == 0 then record { tokens = burst; last = now } else b

  unfoldable pub refilled : D → D → ℕ → Bucket D → Bucket D
  refilled rate burst now b = record {
    tokens =
        double.minimum burst (double.plus b.tokens (double.times (double.seconds now b.last) rate));
    last = now;
  }

  unfoldable pub take_token : Bucket D → Bool × Bucket D
  take_token b =
      if double.at_least_one b.tokens
      then (true, record b { tokens = double.minus_one b.tokens })
      else (false, b)

  unfoldable pub allow : ℕ → Text → RateLimiter D → Bool × RateLimiter D
  allow now key r =
      let (allowed, b) =
        take_token (refilled r.rate r.burst now (started r.burst now (bucket_of key r))) in
      (allowed, record r { buckets = insert key b r.buckets })

-- What both limiters answer.
abbrev pub limited_response : HttpResponse
limited_response = set_body (codes "rate limited") (
    add_header (codes "Retry-After") (codes "1")
      (set_status_code forbidden_403 (new_response false)))

abbrev pub client_of : HttpRequest → Text
client_of req =
    let id = get_header (codes "X-Client-Id") req in if is_empty id then codes "global" else id

-- ratelimit_drops, where there are counters
unfoldable pub count_drop : Option Metrics → Option Metrics
count_drop none = none
count_drop (some m) = some (record m { ratelimit_drops = next m.ratelimit_drops })

pub record Limited (L : Type 0) : Type 0 where
  pub limiter : L
  pub metrics : Option Metrics

module _ {D : Type 0} (double : Doubles D) (now : ℕ) where
  unfoldable pub limit_before :
      HttpRequest → Limited (RateLimiter D) → Outcome (Limited (RateLimiter D)) HttpRequest
  limit_before req w =
      let (allowed, r) = allow double now (client_of req) w.limiter in
      if allowed
      then done req (record w { limiter = r })
      else raise (response limited_response) req
          (record { limiter = r; metrics = count_drop w.metrics })

  abbrev pub limit_middleware : Middleware (Limited (RateLimiter D))
  limit_middleware = record { before = limit_before; after = λ resp w. done resp w }
