-- ===== src/Shortener/Program/Answers.antt =====
-- What the whole program answers to a request that its middlewares let through.
use http.Prelude.{
  text_eq, same, ℕ, ◌≡◌, refl, ap, ◌∙◌, Bool, true, false, List, [], ◌∷◌, Option, none, some, arith,
}
use http.Std.Text.{Text, codes}
use http.Http.Request.{HttpRequest, Method}
use http.Http.Response.{HttpResponse, new_response}
use http.Http.Server.{not_found, handle_request, route_and_after, route_or_404, catch_all}
use http.Http.Server.Answers.{handle_request_routed}
use http.Http.Server.Registration.{
  HttpServer, use_middleware, post_handler, get_handler, add_route_handler,
}
use http.Exceptions.{and_then, Outcome, done}
use http.Router.{regex_text, extract_path_parameters, route_key_eq, route}
use http.Middleware.{
  process_before, process_after, after_each, catch_std, add_middleware, Middleware, MiddlewareChain,
}
use http.Middleware.Cors.{
  is_options, cors_before, cors_after, cors_answer, default_config, cors_middleware,
}
use http.HttpCache.Caching as Caching
use http.Shortener.Store.{Store}
use http.Shortener.Guards.{
  is_blocked, checked_text, blacklist_before, blacklist_middleware, adapter_before, adapter_after,
}
use http.Shortener.Limits.{Doubles, RateLimiter, allow, client_of, limit_before}
use http.Shortener.Program.Routes.{server, link_route, no_static_route, link_match}
use http.Shortener.Handlers.{redirect}
use http.Shortener.Bloom.{bloom_filter}
use http.Shortener.Program.{
  shared_of, link_pattern, link_pattern, Objects, local_limiter, caching, patterns, policy,
  url_shortener, with_middlewares, with_routes,
}

caught_none : {W : Type 0} (o : Outcome W HttpResponse) → o.raised ≡ none → catch_all o ≡ o
caught_none o e = ground arith

module _ {Regex S D : Type 0} (regex_match : Regex → Text → Option (List Text))
    (compile : Text → Regex) (store : Store S) (double : Doubles D) (tick second now : ℕ)
    (valid : Text → Bool) (ids : List Text) where
  abbrev pub chain : MiddlewareChain (Objects S (RateLimiter D))
  chain =
      some (cors_middleware default_config)
      ∷ some (local_limiter double tick)
      ∷ some (blacklist_middleware patterns)
      ∷ some (caching second now)
      ∷ []

  -- what the cache says of a request, with the objects that it looks at
  abbrev pub looked_up : HttpRequest → Objects S (RateLimiter D) → Bool
  looked_up req o =
      (Caching.before Caching.memory_store (policy second) now req (new_response false) o.cache).0.0

  one_passes :
      (m : Middleware (Objects S (RateLimiter D)))
      (ms : MiddlewareChain (Objects S (RateLimiter D))) (req : HttpRequest)
      (o o' : Objects S (RateLimiter D))
      → m.before req o ≡ done req o'
      → process_before (some m ∷ ms) req o ≡ process_before ms req o'
  unfolding process_before
  one_passes m ms req o o' e = ap (λ p. and_then p (process_before ms)) e

  limiter_passes :
      (req : HttpRequest) (o : Objects S (RateLimiter D))
      → (allow double tick (client_of req) o.limiter).0 ≡ true
      → (local_limiter {S = S} double tick).before req o
        ≡ done req (record o { limiter = (allow double tick (client_of req) o.limiter).1 })
  unfolding limit_before
  limiter_passes req o h = ground arith

  cache_passes :
      (req : HttpRequest) (o : Objects S (RateLimiter D))
      → looked_up req o ≡ false
      → (caching {S = S} {L = RateLimiter D} second now).before req o
        ≡ done req (record o {
          cache =
              (Caching.before Caching.memory_store
                (policy second)
                now
                req
                (new_response false)
                o.cache).1;
        })
  unfolding adapter_before
  cache_passes req o h = ground arith

  -- the objects once the middlewares have let the request through
  abbrev pub passed : HttpRequest → Objects S (RateLimiter D) → Objects S (RateLimiter D)
  passed req o = record o {
    limiter = (allow double tick (client_of req) o.limiter).1;
    cache =
        (Caching.before Caching.memory_store (policy second) now req (new_response false)
          o.cache).1;
  }

  all_pass :
      (req : HttpRequest) (o : Objects S (RateLimiter D))
      → is_options req.method ≡ false
      → (allow double tick (client_of req) o.limiter).0 ≡ true
      → is_blocked patterns (checked_text req) ≡ false
      → looked_up req o ≡ false
      → process_before chain req o ≡ done req (passed req o)
  unfolding process_before cors_before blacklist_before
  all_pass req o n a b c =
      let o' : Objects S (RateLimiter D) = record o {
        limiter = (allow double tick (client_of req) o.limiter).1;
      } in
      let cors : (cors_middleware default_config).before req o ≡ done req o = ground arith in
      let blacklist : (blacklist_middleware patterns).before req o' ≡ done req o' = ground arith in
      let last : MiddlewareChain (Objects S (RateLimiter D)) = some (caching second now) ∷ [] in
      let last_two : MiddlewareChain (Objects S (RateLimiter D)) =
        some (blacklist_middleware patterns) ∷ last in
      one_passes (cors_middleware default_config) (some (local_limiter double tick) ∷ last_two) req
        o o cors
      ∙ one_passes (local_limiter double tick) last_two req o o' (limiter_passes req o a)
      ∙ one_passes (blacklist_middleware patterns) last req o' o' blacklist
      ∙ one_passes (caching second now) [] req o' (passed req o) (cache_passes req o' c)

  all_after :
      (resp : HttpResponse) (o : Objects S (RateLimiter D))
      → ((process_after chain resp o).value
          ≡ cors_answer default_config default_config.allowed_origins resp)
        × ((process_after chain resp o).raised ≡ none)
  unfolding process_after after_each catch_std cors_after adapter_after
  all_after resp o = (refl, refl)

  abbrev pub the_server : HttpServer Regex (Objects S (RateLimiter D))
  the_server = server regex_match compile store double tick second now valid ids

  routed :
      (req : HttpRequest) (resp r : HttpResponse) (o o' : Objects S (RateLimiter D))
      → process_before chain req o ≡ done req (passed req o)
      → route regex_match the_server.router req resp (passed req o) ≡ some (done r o')
      → ((handle_request regex_match the_server.router chain req resp o).value
          ≡ cors_answer default_config default_config.allowed_origins r)
        × ((handle_request regex_match the_server.router chain req resp o).raised ≡ none)
  unfolding route_and_after route_or_404
  routed req resp r o o' pass e =
      let (value, fine) = all_after r o' in
      let answer =
        handle_request_routed regex_match the_server.router chain req resp o
          (ap (λ (p : Outcome (Objects S (RateLimiter D)) HttpRequest). p.raised) pass)
        ∙ ap
            (λ (p : Outcome (Objects S (RateLimiter D)) HttpRequest).
              catch_all (route_and_after regex_match the_server.router chain resp p.value p.world))
            pass
        ∙ ap
            (λ (p : Option (Outcome (Objects S (RateLimiter D)) HttpResponse)).
              let x : Outcome (Objects S (RateLimiter D)) HttpResponse = elim p [
                | some x ↦ x
                | none ↦ done (not_found resp) (passed req o)
              ] in
              let y : Outcome (Objects S (RateLimiter D)) HttpResponse = elim x.raised [
                | none ↦ process_after chain x.value x.world
                | some e' ↦ x
              ] in
              catch_all y)
            e
        ∙ caught_none _ fine in
      (
        ap (λ (p : Outcome (Objects S (RateLimiter D)) HttpResponse). p.value) answer ∙ value,
        ap (λ (p : Outcome (Objects S (RateLimiter D)) HttpResponse). p.raised) answer ∙ fine,
      )

  -- A GET that the limiter, the blacklist and the cache let through, whose path is no static route and
  -- matches the expression of the links: the whole program answers what RedirectHandler answers for
  -- the request with the groups as its parameters, with the headers for all origins added.
  pub url_shortener_redirects :
      (req : HttpRequest) (resp : HttpResponse) (o : Objects S (RateLimiter D)) (groups : List Text)
      → req.method ≡ Method.get
      → (allow double tick (client_of req) o.limiter).0 ≡ true
      → is_blocked patterns (checked_text req) ≡ false
      → looked_up req o ≡ false
      → same (codes "/metrics") req.path ≡ false
      → same (codes "/healthz") req.path ≡ false
      → regex_match (compile (regex_text link_pattern)) req.path ≡ some groups
      → ((handle_request regex_match the_server.router the_server.middleware_chain req resp o).value
          ≡ cors_answer default_config default_config.allowed_origins
              (redirect store bloom_filter
                (extract_path_parameters 1 groups req)
                resp
                (shared_of (passed req o))).0)
        × ((handle_request regex_match the_server.router the_server.middleware_chain req resp
              o).raised
            ≡ none)
  unfolding url_shortener with_routes with_middlewares use_middleware add_middleware post_handler
      get_handler add_route_handler
  url_shortener_redirects req resp o groups m a b c p q e =
      let pass = all_pass req o (ap is_options m) a b c in
      let leads =
        link_route regex_match compile store double tick second now valid ids req resp
          (passed req o) groups
          (no_static_route regex_match compile store double tick second now valid ids req m p q)
          (link_match regex_match compile store double tick second now valid ids req groups m e) in
      routed req resp _ o _ pass leads
