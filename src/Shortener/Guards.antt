-- ===== src/Shortener/Guards.antt =====
-- mw_Blacklist.h and CacheAdapter.h: the middlewares of the program that need no clock of their own.
pub mod Laws
use http.Prelude.{
  ℕ, Bool, true, false, not, ◌&&◌, List, [], ◌∷◌, ◌++◌, Option, none, some, is_some, if◌then◌else◌,
}
use http.Std.Text.{Text, codes, find, is_empty}
use http.Http.Request.{HttpRequest, new_request}
use http.Http.Response.{HttpResponse, new_response, set_status_code, set_body, bad_request_400}
use http.Exceptions.{Outcome, Raised, response, done, raise}
use http.Middleware.{Middleware}
use http.HttpCache.{CachePolicy}
use http.HttpCache.Caching as Caching
use http.HttpCache.Caching.{CacheStore}
use http.Shortener.{Metrics, next}

-- The body and the path, with a space between them.
abbrev pub checked_text : HttpRequest → Text
checked_text req = req.content ++ b' ' ∷ req.path

abbrev pub blocked_response : HttpResponse
blocked_response =
    set_body (codes "blocked by blacklist") (set_status_code bad_request_400 (new_response false))

-- The loop over the patterns.
unfoldable pub is_blocked : List Text → Text → Bool
is_blocked [] text = false
is_blocked (p ∷ ps) text =
    let rest = is_blocked ps text in
    if not (is_empty p) && is_some (find p text) then true else rest

-- BlacklistMiddleware
unfoldable pub blacklist_before : {W : Type 0} → List Text → HttpRequest → W → Outcome W HttpRequest
blacklist_before patterns req w =
    if is_blocked patterns (checked_text req)
    then raise (response blocked_response) req w
    else done req w

abbrev pub blacklist_middleware : {W : Type 0} → List Text → Middleware W
blacklist_middleware patterns = record {
  before = blacklist_before patterns;
  after = λ resp w. done resp w;
}

-- The cache of the adapter and the counters, which it is always given.
pub record Cached (S : Type 0) : Type 0 where
  pub cache : S
  pub metrics : Metrics

module _ {S : Type 0} (store : CacheStore S) (policy : CachePolicy) (now : ℕ) where
  -- CacheAdapter::before
  unfoldable pub adapter_before : HttpRequest → Cached S → Outcome (Cached S) HttpRequest
  adapter_before req w =
      let ((hit, resp), s) = Caching.before store policy now req (new_response false) w.cache in
      if hit
      then raise (response resp) req (record {
        cache = s;
        metrics = record (w.metrics) { cache_hits = next w.metrics.cache_hits };
      })
      else done req (record w { cache = s })

  -- CacheAdapter::after, which gives the cache an empty request
  unfoldable pub adapter_after : HttpResponse → Cached S → Outcome (Cached S) HttpResponse
  adapter_after resp w = done resp (record {
    cache = Caching.after store policy now new_request resp w.cache;
    metrics = record (w.metrics) { cache_sets = next w.metrics.cache_sets };
  })

  abbrev pub cache_adapter : Middleware (Cached S)
  cache_adapter = record { before = adapter_before; after = adapter_after }
