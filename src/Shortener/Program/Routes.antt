-- ===== src/Shortener/Program/Routes.antt =====
-- Where the routes of the program lead.
use http.Prelude.{text_eq, same, list_beq, ℕ, ◌≡◌, refl, Bool, false, List, Option, none, some}
use http.Std.Text.{Text, codes}
use http.Http.Request.{HttpRequest, Method}
use http.Http.Response.{HttpResponse}
use http.Http.Server.Registration.{
  HttpServer, use_middleware, post_handler, get_handler, add_route_handler,
}
use http.Router.{
  regex_text, first_match, extract_path_parameters, route_key_eq, route, register_handler,
  add_regex_handler,
}
use http.Std.Map.{lookup, insert}
use http.Shortener.Store.{Store}
use http.Shortener.Limits.{Doubles, RateLimiter}
use http.Shortener.Program.{
  redirect_handler, link_pattern, Objects, local_limiter, url_shortener, with_middlewares,
  with_routes,
}

module _ {Regex S D : Type 0} (regex_match : Regex → Text → Option (List Text))
    (compile : Text → Regex) (store : Store S) (double : Doubles D) (tick second now : ℕ)
    (valid : Text → Bool) (ids : List Text) where
  -- the server
  abbrev pub server : HttpServer Regex (Objects S (RateLimiter D))
  server = url_shortener compile store (local_limiter double tick) second now valid ids

  pub no_static_route :
      (req : HttpRequest)
      → req.method ≡ Method.get
      → same (codes "/metrics") req.path ≡ false
      → same (codes "/healthz") req.path ≡ false
      → lookup (record { method = req.method; path = req.path }) server.router.handlers ≡ none
  unfolding url_shortener with_routes with_middlewares use_middleware post_handler get_handler
      add_route_handler register_handler add_regex_handler lookup insert list_beq
  no_static_route req m a b = rw (m, a, b) refl

  no_callbacks :
      (req : HttpRequest)
      → lookup (record { method = req.method; path = req.path }) server.router.callbacks ≡ none
  unfolding url_shortener with_routes with_middlewares use_middleware post_handler get_handler
      add_route_handler register_handler add_regex_handler lookup
  no_callbacks req = refl

  pub link_match :
      (req : HttpRequest) (groups : List Text)
      → req.method ≡ Method.get
      → regex_match (compile (regex_text link_pattern)) req.path ≡ some groups
      → first_match regex_match server.router.regex_handlers req
        ≡ some (redirect_handler store, groups)
  unfolding url_shortener with_routes with_middlewares use_middleware post_handler get_handler
      add_route_handler register_handler add_regex_handler first_match
  link_match req groups m e = rw (m, e) refl

  pub link_route :
      (req : HttpRequest) (resp : HttpResponse) (o : Objects S (RateLimiter D)) (groups : List Text)
      → lookup (record { method = req.method; path = req.path }) server.router.handlers ≡ none
      → first_match regex_match server.router.regex_handlers req
        ≡ some (redirect_handler store, groups)
      → route regex_match server.router req resp o
        ≡ some (redirect_handler store (extract_path_parameters 1 groups req) resp o)
  unfolding route
  link_route req resp o groups n e = rw (n, no_callbacks req, e, route) refl
