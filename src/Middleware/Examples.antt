-- ===== src/Middleware/Examples.antt =====
-- Tests of the middleware chain, and the theorems at concrete inputs.
use mathlib.Core.List.{reverse}
use http.Prelude.{ℕ, false, ◌≡◌, refl, List, [], ◌∷◌, ◌++◌, some}
use http.Std.Text.{Text, codes}
use http.Http.Request.{HttpRequest, new_request}
use http.Http.Response.{HttpResponse, new_response}
use http.Exceptions.{std_exception, done, raise}
use http.Middleware.{
  Middleware, MiddlewareChain, process_before, process_after, after_each, catch_std,
}
use http.Std.Map.{lookup}
use http.Http.Request.{Method, get_header}
use http.Exceptions.{response}
use http.Prelude.{if◌then◌else◌, text_eq}
use http.Middleware.Cors.{CorsConfig, default_config, contains, cors_middleware, cors_after}
use http.Middleware.Cors.Laws.{origin_name, Preflight, preflight, cors_after-origin}
use http.Middleware.Laws.{tracer, tracers, process-trace}

-- a middleware whose second phase throws
abbrev thrower : Middleware (List Text)
thrower = record {
  before = λ req w. done req w;
  after = λ resp w. raise (std_exception (codes "no")) resp w;
}

abbrev names : List Text
names = codes "a" ∷ codes "b" ∷ []

abbrev chain : MiddlewareChain (List Text)
chain = some (tracer (codes "a")) ∷ some thrower ∷ some (tracer (codes "b")) ∷ []

process_after_test :
    process_after chain (new_response false) [] ≡ done (new_response false) (codes "b" ∷ [])
unfolding process_after after_each catch_std
process_after_test = refl

process-trace_example :
    ((process_before (tracers names) new_request []).world ≡ [] ++ names)
    × ((process_after (tracers names) (new_response false) []).world ≡ [] ++ reverse names)
process-trace_example = process-trace names [] new_request (new_response false)

abbrev two_origins : CorsConfig
two_origins = record default_config { allowed_origins = codes "http://a" ∷ codes "http://b" ∷ [] }

abbrev preflight_b : HttpRequest
preflight_b = record new_request {
  method = Method.options;
  headers = (codes "Origin", codes "http://b") ∷ [];
}

preflight_example :
    (resp : HttpResponse) × (process_before
        (some (cors_middleware two_origins) ∷ chain)
        preflight_b
        []
      ≡ raise (response resp) preflight_b [])
    × Preflight two_origins (get_header (codes "Origin") preflight_b) resp
preflight_example = preflight two_origins chain preflight_b [] refl

cors_after-origin_example :
    lookup origin_name (cors_after {W = ℕ} two_origins (new_response false) 5).value.headers
    ≡ some (
        if contains (codes "*") (codes "http://a" ∷ codes "http://b" ∷ [])
        then codes "*"
        else codes "http://a")
cors_after-origin_example =
    cors_after-origin two_origins (codes "http://a") (codes "http://b" ∷ []) (new_response false) 5
      refl
