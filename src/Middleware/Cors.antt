-- ===== src/Middleware/Cors.antt =====
-- HttpServer/include/middleware/cors and src/middleware/cors/CorsMiddleware.cpp.
pub mod Laws
use http.Prelude.{ℕ, Bool, true, false, ◌||◌, List, [], ◌∷◌, ◌++◌, same, text_eq, if◌then◌else◌}
use http.Std.Text.{Text, codes}
use http.Std.Number.{to_string}
use http.Http.Request.{HttpRequest, Method, get_header}
use http.Http.Response.{
  HttpResponse, new_response, add_header, set_status_code, no_content_204, forbidden_403,
}
use http.Exceptions.{Outcome, response, done, raise}
use http.Middleware.{Middleware}

pub record CorsConfig : Type 0 where
  pub allowed_origins : List Text
  pub allowed_methods : List Text
  pub allowed_headers : List Text
  pub allow_credentials : Bool
  pub max_age : ℕ

-- CorsConfig::defaultConfig()
abbrev pub default_config : CorsConfig
default_config = record {
  allowed_origins = codes "*" ∷ [];
  allowed_methods =
      codes "GET" ∷ codes "POST" ∷ codes "PUT" ∷ codes "DELETE" ∷ codes "OPTIONS" ∷ [];
  allowed_headers = codes "Content-Type" ∷ codes "Authorization" ∷ [];
  allow_credentials = false;
  max_age = 3600;
}

-- std::find of a text in a vector, compared with its end
unfoldable pub contains : Text → List Text → Bool
contains a [] = false
contains a (b ∷ bs) = same b a || contains a bs

abbrev pub no_texts : List Text → Bool
no_texts [] = true
no_texts (_ ∷ _) = false

unfoldable pub join_from : Text → List Text → Text
join_from delimiter [] = []
join_from delimiter (s ∷ ss) = delimiter ++ (s ++ join_from delimiter ss)

-- The strings with the delimiter between them.
unfoldable pub join : List Text → Text → Text
join [] delimiter = []
join (s ∷ ss) delimiter = s ++ join_from delimiter ss

-- `maxAge` is an int; here it is not negative.
unfoldable pub add_cors_headers : CorsConfig → Text → HttpResponse → HttpResponse
add_cors_headers config origin r =
    let r₁ = add_header (codes "Access-Control-Allow-Origin") origin r in
    let r₂ =
      if config.allow_credentials
      then add_header (codes "Access-Control-Allow-Credentials") (codes "true") r₁
      else r₁ in
    let r₃ =
      if no_texts config.allowed_methods
      then r₂
      else add_header (codes "Access-Control-Allow-Methods")
          (join config.allowed_methods (codes ", ")) r₂ in
    let r₄ =
      if no_texts config.allowed_headers
      then r₃
      else add_header (codes "Access-Control-Allow-Headers")
          (join config.allowed_headers (codes ", ")) r₃ in
    add_header (codes "Access-Control-Max-Age") (to_string config.max_age) r₄

unfoldable pub is_origin_allowed : CorsConfig → Text → Bool
is_origin_allowed config origin =
    no_texts config.allowed_origins
    || (contains (codes "*") config.allowed_origins || contains origin config.allowed_origins)

unfoldable pub handle_preflight_request : CorsConfig → HttpRequest → HttpResponse → HttpResponse
handle_preflight_request config req r =
    let origin = get_header (codes "Origin") req in
    if is_origin_allowed config origin
    then set_status_code no_content_204 (add_cors_headers config origin r)
    else set_status_code forbidden_403 r

abbrev pub is_options : Method → Bool
is_options Method.options = true
is_options _ = false

-- The headers of an answer: for all origins, or for the first one that is allowed.
unfoldable pub cors_answer : CorsConfig → List Text → HttpResponse → HttpResponse
cors_answer config [] r = r
cors_answer config (origin ∷ origins) r =
    if contains (codes "*") (origin ∷ origins)
    then add_cors_headers config (codes "*") r
    else add_cors_headers config origin r

module _ {W : Type 0} (config : CorsConfig) where
  unfoldable pub cors_before : HttpRequest → W → Outcome W HttpRequest
  cors_before req w =
      if is_options req.method
      then raise (response (handle_preflight_request config req (new_response true))) req w
      else done req w

  unfoldable pub cors_after : HttpResponse → W → Outcome W HttpResponse
  cors_after r w = done (cors_answer config config.allowed_origins r) w

  -- CorsMiddleware
  abbrev pub cors_middleware : Middleware W
  cors_middleware = record { before = cors_before; after = cors_after }
