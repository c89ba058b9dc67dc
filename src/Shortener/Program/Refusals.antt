-- ===== src/Shortener/Program/Refusals.antt =====
-- What the whole program answers to a client that asks too often.
use http.Prelude.{ℕ, ◌≡◌, ap, ◌∙◌, Bool, false, List, [], ◌∷◌, Option, some, arith}
use http.Std.Text.{Text}
use http.Http.Request.{HttpRequest}
use http.Http.Response.{HttpResponse}
use http.Http.Server.{handle_request}
use http.Http.Server.Answers.{handle_request_blocked}
use http.Http.Server.Registration.{use_middleware, post_handler, get_handler, add_route_handler}
use http.Exceptions.{Outcome, response, done, raise}
use http.Middleware.{process_before, add_middleware}
use http.Middleware.Cors.{is_options, cors_before, default_config, cors_middleware}
use http.Shortener.{next}
use http.Shortener.Store.{Store}
use http.Shortener.Limits.{
  Doubles, RateLimiter, allow, client_of, limited_response, limit_before, count_drop,
}
use http.Shortener.Program.{
  caching, patterns, blacklist_middleware, Objects, local_limiter, url_shortener, with_middlewares,
  with_routes,
}

module _ {Regex S D : Type 0} (regex_match : Regex → Text → Option (List Text))
    (compile : Text → Regex) (store : Store S) (double : Doubles D) (tick second now : ℕ)
    (valid : Text → Bool) (ids : List Text) where
  limiter_raises :
      (req : HttpRequest) (o : Objects S (RateLimiter D))
      → (allow double tick (client_of req) o.limiter).0 ≡ false
      → (local_limiter {S = S} double tick).before req o
        ≡ raise (response limited_response) req (record o {
          limiter = (allow double tick (client_of req) o.limiter).1;
          metrics = record (o.metrics) { ratelimit_drops = next o.metrics.ratelimit_drops };
        })
  unfolding limit_before count_drop
  limiter_raises req o h = ground arith

  cors_passes :
      (req : HttpRequest) (o : Objects S (RateLimiter D))
      → is_options req.method ≡ false
      → process_before (some (cors_middleware default_config) ∷ []) req o ≡ done req o
  unfolding process_before cors_before
  cors_passes req o n = ground arith

  -- A request that is not a preflight, of a client whose bucket is empty, is answered by the whole
  -- program with 403 and Retry-After, whatever its path: only the limiter and its counter of drops
  -- change, not the store, the filter or the cache.
  pub url_shortener_limited :
      (req : HttpRequest) (resp : HttpResponse) (o : Objects S (RateLimiter D))
      → is_options req.method ≡ false
      → (allow double tick (client_of req) o.limiter).0 ≡ false
      → handle_request regex_match
          (url_shortener compile store (local_limiter double tick) second now valid ids).router
          (url_shortener compile store
            (local_limiter double tick)
            second
            now
            valid
            ids).middleware_chain
          req
          resp
          o
        ≡ done limited_response (record o {
          limiter = (allow double tick (client_of req) o.limiter).1;
          metrics = record (o.metrics) { ratelimit_drops = next o.metrics.ratelimit_drops };
        })
  unfolding url_shortener with_routes with_middlewares use_middleware add_middleware post_handler
      get_handler add_route_handler
  url_shortener_limited req resp o n h =
      let limiter = local_limiter {S = S} double tick in
      let passes = cors_passes req o n in
      let before =
        λ (p : Outcome (Objects S (RateLimiter D)) HttpRequest). limiter.before p.value p.world in
      let raises = ap before passes ∙ limiter_raises req o h in
      handle_request_blocked regex_match
        (url_shortener compile store limiter second now valid ids).router
        (some (cors_middleware default_config) ∷ [])
        (some (blacklist_middleware patterns) ∷ some (caching second now) ∷ []) limiter req resp
        limited_response o
        (ap (λ (p : Outcome (Objects S (RateLimiter D)) HttpRequest). p.raised) passes)
        (ap (λ (p : Outcome (Objects S (RateLimiter D)) HttpRequest). p.raised) raises)
      ∙ ap (λ (p : Outcome (Objects S (RateLimiter D)) HttpRequest). done limited_response p.world)
          raises
