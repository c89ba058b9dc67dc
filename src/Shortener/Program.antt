-- ===== src/Shortener/Program.antt =====
-- src/main.cpp and src/main_cache_aside.cpp: the choice of the store, the middlewares and the routes.
-- The environment, the log and the start of the server are left out.
pub mod Refusals
pub mod Answers
pub mod Routes
mod Examples
use http.Prelude.{
  ℕ, ◌*◌, Bool, true, false, ◌&&◌, List, [], ◌∷◌, ◌++◌, Option, none, some, if◌then◌else◌, leb,
}
use http.Std.Text.{Text, codes}
use http.Http.Request.{HttpRequest, Method}
use http.Http.Response.{HttpResponse}
use http.Http.Server.Registration.{
  HttpServer, use_middleware, post_handler, get_handler, add_route_handler,
}
use http.Exceptions.{Outcome, done}
use http.Router.{Handler, no_routes}
use http.Middleware.{Middleware}
use http.Middleware.Cors.{default_config, cors_middleware}
use http.HttpCache.{CachePolicy, default_policy}
use http.HttpCache.Memory.{MemoryCacheLru, new_cache}
use http.HttpCache.Caching as Caching
use http.Shortener.{Metrics}
use http.Shortener.Store.{Store}
use http.Shortener.Page.{metrics_page}
use http.Shortener.Handlers.{Shared, shorten, redirect, health}
use http.Shortener.Guards.{Cached, cache_adapter, blacklist_middleware}
use http.Shortener.Bloom.{Bloom, new_bloom, bloom_filter}
use http.Shortener.Limits.{Doubles, RateLimiter, Limited, limit_middleware}

-- The objects of main that handlers and middlewares point to.
pub record Objects (S L : Type 0) : Type 0 where
  pub store : S
  pub bloom : Bloom
  pub metrics : Metrics
  pub limiter : L
  pub cache : MemoryCacheLru

pub data Backend : Type 0 where
  cache_aside : Backend
  redis_only : Backend
  mysql_only : Backend
  memory : Backend

-- The store of main_cache_aside.cpp, by what is compiled in and what could be set up.
unfoldable pub choose_backend : Bool → Bool → Bool → Bool → Backend
choose_backend with_redis with_mysql redis_ok mysql_ok =
    if with_redis && with_mysql
    then if redis_ok && mysql_ok
      then cache_aside
      else if redis_ok
      then redis_only
      else if mysql_ok
      then mysql_only
      else memory
    else if with_redis
    then if redis_ok then redis_only else memory
    else if with_mysql
    then if mysql_ok then mysql_only else memory
    else memory

-- CACHE_BACKFILL_TTL as atoi reads it, `none` for a negative number; the outer `none` where it is not
-- set.
unfoldable pub backfill_ttl : Option (Option ℕ) → ℕ
backfill_ttl none = 60
backfill_ttl (some none) = 60
backfill_ttl (some (some v)) = if leb v 3600 then v else 60

abbrev pub patterns : List Text
patterns = codes "javascript:" ∷ codes "data:" ∷ []

-- the ticks of a second are the argument
abbrev pub policy : ℕ → CachePolicy
policy second = record (default_policy second) {
  memory_capacity_bytes = 64 * 1024 * 1024;
  ttl = 300 * second;
}

module _ {S : Type 0} where
  -- what the parts are given of the objects, and what they leave
  abbrev pub shared_of : {L : Type 0} → Objects S L → Shared S Bloom
  shared_of o = record { store = o.store; bloom = some o.bloom; metrics = o.metrics }

  abbrev pub put_shared : {L : Type 0} → Shared S Bloom → Objects S L → Objects S L
  put_shared w o = record o {
    store = w.store;
    bloom = elim w.bloom [ none ↦ o.bloom | some b ↦ b ];
    metrics = w.metrics;
  }

  abbrev pub put_limited :
      {D : Type 0} → Limited (RateLimiter D) → Objects S (RateLimiter D) → Objects S (RateLimiter D)
  put_limited w o = record o {
    limiter = w.limiter;
    metrics = elim w.metrics [ none ↦ o.metrics | some m ↦ m ];
  }

-- A middleware on one part of the objects.
module _ {V W : Type 0} (part : W → V) (put : V → W → W) where
  abbrev on_part : {A : Type 0} → (V → Outcome V A) → W → Outcome W A
  on_part f w =
      let o = f (part w) in record { value = o.value; world = put o.world w; raised = o.raised }

  abbrev pub middleware_on : Middleware V → Middleware W
  middleware_on m = record {
    before = λ req. on_part (m.before req);
    after = λ resp. on_part (m.after resp);
  }

module _ {S : Type 0} {D : Type 0} (double : Doubles D) (now : ℕ) where
  abbrev pub local_limiter : Middleware (Objects S (RateLimiter D))
  local_limiter =
      middleware_on (λ o. record { limiter = o.limiter; metrics = some o.metrics }) put_limited
        (limit_middleware double now)

module _ {S L : Type 0} (second now : ℕ) where
  abbrev pub caching : Middleware (Objects S L)
  caching =
      middleware_on (λ o. record { cache = o.cache; metrics = o.metrics })
        (λ w o. record o { cache = w.cache; metrics = w.metrics })
        (cache_adapter Caching.memory_store (policy second) now)

-- the handlers, as the routes of the server
module _ {S L : Type 0} where
  abbrev handled : HttpResponse × Shared S Bloom → Objects S L → Outcome (Objects S L) HttpResponse
  handled (resp, w) o = done resp (put_shared w o)

  abbrev pub shorten_handler : Store S → (Text → Bool) → List Text → Handler (Objects S L)
  shorten_handler store valid ids req resp o =
      handled (shorten store bloom_filter valid ids req resp (shared_of o)) o

  abbrev pub redirect_handler : Store S → Handler (Objects S L)
  redirect_handler store req resp o = handled (redirect store bloom_filter req resp (shared_of o)) o

abbrev pub metrics_handler : {S L : Type 0} → Handler (Objects S L)
metrics_handler req resp o = done (metrics_page o.metrics resp) o

abbrev pub health_handler : {S L : Type 0} → Handler (Objects S L)
health_handler req resp o = done (health resp) o

abbrev pub link_pattern : Text
link_pattern = codes "^/s/([A-Za-z0-9_-]{3,64})$"

module _ {Regex S L : Type 0} (compile : Text → Regex) (store : Store S)
    (limiter : Middleware (Objects S L)) (second now : ℕ) (valid : Text → Bool)
    (ids : List Text) where
  -- addMiddleware, four times
  unfoldable pub with_middlewares : HttpServer Regex (Objects S L) → HttpServer Regex (Objects S L)
  with_middlewares s = use_middleware (some (caching second now)) (
      use_middleware (some (blacklist_middleware patterns))
        (use_middleware (some limiter) (use_middleware (some (cors_middleware default_config)) s)))

  unfoldable pub with_routes : HttpServer Regex (Objects S L) → HttpServer Regex (Objects S L)
  with_routes s = get_handler (codes "/healthz") health_handler (
      get_handler (codes "/metrics") metrics_handler (
        add_route_handler compile Method.get link_pattern (redirect_handler store)
          (post_handler (codes "/api/shorten") (shorten_handler store valid ids) s)))

  -- the server as main starts it
  unfoldable pub url_shortener : HttpServer Regex (Objects S L)
  url_shortener =
      with_routes (with_middlewares (record { router = no_routes; middleware_chain = [] }))

unfoldable pub new_objects : {S D : Type 0} → ℕ → S → D → Metrics → Objects S (RateLimiter D)
new_objects second store two_thousand metrics = record {
  store = store;
  bloom = new_bloom 1048576;
  metrics = metrics;
  limiter = record { buckets = []; rate = two_thousand; burst = two_thousand };
  cache = new_cache (policy second).memory_capacity_bytes;
}
