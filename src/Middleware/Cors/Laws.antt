-- ===== src/Middleware/Cors/Laws.antt =====
-- Which origins the CORS middleware lets through, and what it answers.
use http.Prelude.{
  ◌≡◌, ◌⊎◌, ◌↔◌, inl, inr, refl, ap, ◌∙◌, Bool, true, false, List, [], ◌∷◌, some, arith, same,
  same_iff, text_eq, if◌then◌else◌, Bool-cases, list_beq,
}
use http.Std.Text.{Text, codes}
use http.Std.Map.{lookup, lookup-insert_sorted}
use http.Http.Request.{HttpRequest, Method, get_header}
use http.Http.Response.{HttpResponse, new_response, add_header}
use http.Exceptions.{response, raise}
use http.Middleware.{MiddlewareChain, process_before}
use http.Middleware.Cors.{
  CorsConfig, contains, no_texts, is_origin_allowed, add_cors_headers, handle_preflight_request,
  cors_before, cors_after, cors_middleware, cors_answer,
}

abbrev pub origin_name : Text
origin_name = codes "Access-Control-Allow-Origin"

other_names :
    (same (codes "Access-Control-Allow-Credentials") origin_name ≡ false)
    × (same (codes "Access-Control-Allow-Methods") origin_name ≡ false)
    × (same (codes "Access-Control-Allow-Headers") origin_name ≡ false)
    × (same (codes "Access-Control-Max-Age") origin_name ≡ false)
    × (same origin_name origin_name ≡ true)
unfolding list_beq
other_names = (refl, refl, refl, refl, refl)

-- another header does not change it
keeps :
    (key value : Text) (r : HttpResponse)
    → same key origin_name ≡ false
    → lookup origin_name (add_header key value r).headers ≡ lookup origin_name r.headers
unfolding add_header
keeps key value r h = lookup-insert_sorted key origin_name value r.headers ∙ (rw h)

sets :
    (value : Text) (r : HttpResponse)
    → lookup origin_name (add_header origin_name value r).headers ≡ some value
unfolding add_header
sets value r = lookup-insert_sorted origin_name origin_name value r.headers ∙ (rw other_names.4)

keeps_if :
    (b : Bool) (key value : Text) (r : HttpResponse)
    → same key origin_name ≡ false
    → lookup origin_name (if b then add_header key value r else r).headers
      ≡ lookup origin_name r.headers
keeps_if true key value r h = keeps key value r h
keeps_if false key value r h = refl

keeps_unless :
    (b : Bool) (key value : Text) (r : HttpResponse)
    → same key origin_name ≡ false
    → lookup origin_name (if b then r else add_header key value r).headers
      ≡ lookup origin_name r.headers
keeps_unless true key value r h = refl
keeps_unless false key value r h = keeps key value r h

-- The other headers leave Access-Control-Allow-Origin as it was set.
add_cors_headers-origin :
    (config : CorsConfig) (origin : Text) (r : HttpResponse)
    → lookup origin_name (add_cors_headers config origin r).headers ≡ some origin
unfolding add_cors_headers
add_cors_headers-origin config origin r =
    keeps _ _ _ other_names.3
    ∙ keeps_unless (no_texts config.allowed_headers) _ _ _ other_names.2
    ∙ keeps_unless (no_texts config.allowed_methods) _ _ _ other_names.1
    ∙ keeps_if config.allow_credentials _ _ _ other_names.0
    ∙ sets origin r

abbrev pub IsMember : Text → List Text → Type 0
IsMember a [] = ⊥
IsMember a (b ∷ bs) = (b ≡ a) ⊎ IsMember a bs

contains_iff : (a : Text) (bs : List Text) → (contains a bs ≡ true) ↔ IsMember a bs
unfolding contains
contains_iff a [] = ground arith
contains_iff a (b ∷ bs) = ground (arith, same_iff b a, contains_iff a bs)

no_texts_iff : (bs : List Text) → (no_texts bs ≡ true) ↔ (bs ≡ [])
no_texts_iff [] = ground arith
no_texts_iff (b ∷ bs) = ground arith

-- An origin is allowed exactly when none is configured, `*` is, or it is itself.
pub is_origin_allowed_iff :
    (config : CorsConfig) (origin : Text)
    → (is_origin_allowed config origin ≡ true) ↔ (
        (config.allowed_origins ≡ [])
        ⊎ (IsMember (codes "*") config.allowed_origins ⊎ IsMember origin config.allowed_origins))
unfolding is_origin_allowed
is_origin_allowed_iff config origin = ground (
  arith,
  no_texts_iff config.allowed_origins,
  contains_iff (codes "*") config.allowed_origins,
  contains_iff origin config.allowed_origins,
)

-- 204 and the origin, if it is allowed, or else 403 and no header.
abbrev pub Preflight : CorsConfig → Text → HttpResponse → Type 0
Preflight config origin resp =
    if is_origin_allowed config origin
    then (resp.status_code ≡ 204) × (lookup origin_name resp.headers ≡ some origin)
    else (resp.status_code ≡ 403) × (resp.headers ≡ [])

handle_preflight_request_lem :
    (config : CorsConfig) (req : HttpRequest)
    → Preflight config
        (get_header (codes "Origin") req)
        (handle_preflight_request config req (new_response true))
unfolding handle_preflight_request
handle_preflight_request_lem config req =
    let origin = get_header (codes "Origin") req in
    elim (Bool-cases (is_origin_allowed config origin)) [
      | inl b ↦ rw b (refl, add_cors_headers-origin config origin (new_response true))
      | inr b ↦ rw b (refl, refl)
    ]

-- An OPTIONS request ends in the CORS middleware, whatever stands behind it: with 204 and its own
-- origin allowed, or, if that origin is not allowed, with 403 and no CORS header.
pub preflight :
    {W : Type 0} (config : CorsConfig) (behind : MiddlewareChain W) (req : HttpRequest) (w : W)
    → req.method ≡ Method.options
    → (resp : HttpResponse) × (process_before (some (cors_middleware config) ∷ behind) req w
        ≡ raise (response resp) req w)
      × Preflight config (get_header (codes "Origin") req) resp
unfolding process_before cors_before
preflight config behind req w e = (
  handle_preflight_request config req (new_response true),
  rw e,
  handle_preflight_request_lem config req,
)

cors_answer-origin :
    (config : CorsConfig) (origin : Text) (origins : List Text) (resp : HttpResponse)
    → lookup origin_name (cors_answer config (origin ∷ origins) resp).headers
      ≡ some (if contains (codes "*") (origin ∷ origins) then codes "*" else origin)
unfolding cors_answer
cors_answer-origin config origin origins resp =
    elim (Bool-cases (contains (codes "*") (origin ∷ origins))) [
      | inl b ↦ rw b (add_cors_headers-origin config (codes "*") resp)
      | inr b ↦ rw b (add_cors_headers-origin config origin resp)
    ]

-- A response is given the headers of one origin, whatever the origin of the request was: `*` if it is
-- configured, or else the first of the configured ones.
pub cors_after-origin :
    {W : Type 0} (config : CorsConfig) (origin : Text) (origins : List Text) (resp : HttpResponse)
    (w : W)
    → config.allowed_origins ≡ origin ∷ origins
    → lookup origin_name (cors_after config resp w).value.headers
      ≡ some (if contains (codes "*") (origin ∷ origins) then codes "*" else origin)
unfolding cors_after
cors_after-origin config origin origins resp w e =
    ap (λ os. lookup origin_name (cors_answer config os resp).headers) e
    ∙ cors_answer-origin config origin origins resp
