-- ===== src/Shortener/Program/Examples.antt =====
-- Tests of the program, and the theorem at a concrete input.
use http.Prelude.{Option, ℕ, ◌≡◌, refl, true, false, List, [], ◌∷◌, none, some, text_eq, list_beq}
use http.Std.Text.{Text, codes}
use http.Std.Map.{lookup}
use http.Http.Request.{HttpRequest, new_request, Method}
use http.Http.Response.{new_response}
use http.Http.Server.{handle_request}
use http.Exceptions.{done}
use http.HttpCache.Memory.{new_cache}
use http.Shortener.{Metrics}
use http.Shortener.Store.{memory_store}
use http.Shortener.Bloom.{new_bloom}
use http.Shortener.Limits.{
  RateLimiter, allow, client_of, limited_response, bucket_of, started, refilled, take_token,
}
use http.Shortener.Limits.Wholes.{wholes}
use http.Shortener.Program.{
  Objects, cache_aside, memory, choose_backend, backfill_ttl, local_limiter, url_shortener,
}
use http.Http.Server.Registration.{HttpServer}
use http.HttpCache.Memory.{get}
use http.HttpCache.Caching as Caching
use http.Router.{extract_path_parameters}
use http.Middleware.Cors.{cors_answer, default_config}
use http.Shortener.Guards.{is_blocked, checked_text}
use http.Shortener.Handlers.{redirect}
use http.Shortener.Bloom.{bloom_filter}
use http.Shortener.Program.{patterns, policy, shared_of}
use http.Shortener.Program.Answers.{the_server, passed, url_shortener_redirects}
use http.Std.Text.{find, starts_with}
use http.Prelude.{same}
use http.Shortener.Program.Refusals.{url_shortener_limited}

choose_backend_test : choose_backend true true true true ≡ cache_aside
unfolding choose_backend
choose_backend_test = refl

fall_back_test : choose_backend true true false false ≡ memory
unfolding choose_backend
fall_back_test = refl

backfill_ttl_test : backfill_ttl (some (some 5000)) ≡ 60
unfolding backfill_ttl
backfill_ttl_test = refl

abbrev counters : Metrics
counters = record {
  shorten_ok = 0;
  shorten_bad = 0;
  redirect_ok = 0;
  redirect_miss = 0;
  ratelimit_drops = 0;
  cache_hits = 0;
  cache_sets = 0;
  store_get_hit = 0;
  store_get_miss = 0;
  store_setnx_ok = 0;
  store_setnx_conflict = 0;
}

-- A client without an id whose bucket is empty.
abbrev objects : Objects (List (List (Text × Text))) (RateLimiter ℕ)
objects = record {
  store = [] ∷ [] ∷ [];
  bloom = new_bloom 1048576;
  metrics = counters;
  limiter = record {
    buckets = (codes "global", record { tokens = 0; last = 5 }) ∷ [];
    rate = 1;
    burst = 2;
  };
  cache = new_cache 67108864;
}

abbrev ask : HttpRequest
ask = record new_request { method = Method.get; path = codes "/healthz" }

asks_too_often : (allow wholes 5 (client_of ask) objects.limiter).0 ≡ false
unfolding allow bucket_of started refilled take_token lookup list_beq
asks_too_often = refl

url_shortener_limited_example :
    handle_request
      (λ (e : Text) (t : Text). none)
      (url_shortener
        (λ (t : Text). t)
        (memory_store 2)
        (local_limiter wholes 5)
        1
        5
        (λ u. true)
        []).router
      (url_shortener
        (λ (t : Text). t)
        (memory_store 2)
        (local_limiter wholes 5)
        1
        5
        (λ u. true)
        []).middleware_chain
      ask
      (new_response false)
      objects
    ≡ done limited_response (record objects {
      limiter = (allow wholes 5 (client_of ask) objects.limiter).1;
      metrics = record counters { ratelimit_drops = 1 };
    })
url_shortener_limited_example =
    url_shortener_limited (λ e t. none) (λ t. t) (memory_store 2) wholes 5 1 5 (λ u. true) [] ask
      (new_response false) objects refl asks_too_often

-- A client that has not been seen yet asks for a link.
abbrev at_first : Objects (List (List (Text × Text))) (RateLimiter ℕ)
at_first = record objects { limiter = record { buckets = []; rate = 1; burst = 2 } }

abbrev ask_link : HttpRequest
ask_link = record new_request { method = Method.get; path = codes "/s/abc" }

may_ask : (allow wholes 5 (client_of ask_link) at_first.limiter).0 ≡ true
unfolding allow bucket_of started refilled take_token lookup list_beq
may_ask = refl

not_blocked : is_blocked patterns (checked_text ask_link) ≡ false
unfolding is_blocked find starts_with
not_blocked = refl

not_cached :
    (Caching.before Caching.memory_store
      (policy 1)
      5
      ask_link
      (new_response false)
      at_first.cache).0.0
    ≡ false
unfolding Caching.before Caching.is_cacheable_request get lookup list_beq
not_cached = refl

other_paths :
    (same (codes "/metrics") ask_link.path ≡ false)
    × (same (codes "/healthz") ask_link.path ≡ false)
unfolding list_beq
other_paths = (refl, refl)

abbrev matches : Text → Text → Option (List Text)
matches e t = some (codes "abc" ∷ [])

abbrev running : HttpServer Text (Objects (List (List (Text × Text))) (RateLimiter ℕ))
running = the_server matches (λ t. t) (memory_store 2) wholes 5 1 5 (λ u. true) []

url_shortener_redirects_example :
    ((handle_request matches running.router running.middleware_chain ask_link
        (new_response false)
        at_first).value
      ≡ cors_answer default_config default_config.allowed_origins
          (redirect
            (memory_store 2)
            bloom_filter
            (extract_path_parameters 1 (codes "abc" ∷ []) ask_link)
            (new_response false)
            (shared_of (
              passed matches
                (λ t. t)
                (memory_store 2)
                wholes
                5
                1
                5
                (λ u. true)
                []
                ask_link
                at_first))).0)
    × ((handle_request matches running.router running.middleware_chain ask_link
          (new_response false)
          at_first).raised
        ≡ none)
url_shortener_redirects_example =
    url_shortener_redirects matches (λ t. t) (memory_store 2) wholes 5 1 5 (λ u. true) [] ask_link
      (new_response false) at_first (codes "abc" ∷ []) refl may_ask not_blocked not_cached
      other_paths.0 other_paths.1 refl
