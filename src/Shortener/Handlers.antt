-- ===== src/Shortener/Handlers.antt =====
-- RouterSetup.h, RouterSetup.cpp, ShortId.h and UrlValidator.h: the handlers of the program.
pub mod Laws
pub mod Links
mod Examples
use http.Prelude.{
  ℕ, suc, ◌+◌, ◌-◌, ◌*◌, ◌%◌, ◌^◌, Bool, true, false, not, ◌&&◌, List, [], ◌∷◌, ◌++◌, Option, none,
  some, if◌then◌else◌, map, drop, text_eq,
}
use mathlib.Core.Option
use http.Std.Text.{Text, codes, cut, find, is_empty, isspace, isdigit}
use http.Std.Number.{skip_space, to_string}
use http.Http.Request.{HttpRequest, get_path_parameters}
use http.Http.Response.{
  HttpResponse, set_status_code, set_content_type, set_body, add_header, ok_200, bad_request_400,
  not_found_404, moved_permanently_301, internal_server_error_500,
}
use http.Shortener.{Metrics, next}
use http.Shortener.Store.{Store}

-- the digits at the start, as a 32-bit int
unfoldable pub read_ttl : ℕ → Text → ℕ
read_ttl acc [] = acc
read_ttl acc (c ∷ s) =
    let rest = read_ttl ((acc * 10 + (c - b'0')) % 2 ^ 32) s in if isdigit c then rest else acc

abbrev pub url_name : Text
url_name = b'"' ∷ (codes "url" ++ b'"' ∷ [])

abbrev pub ttl_name : Text
ttl_name = b'"' ∷ (codes "ttl" ++ b'"' ∷ [])

-- The value between quotes behind the first colon behind the name.
unfoldable pub parse_url : Text → Option Text
parse_url body = elim (find url_name body) [
  | none ↦ none
  | some pos ↦ elim (cut b':' (drop pos body)) [
    | none ↦ none
    | some (_, behind) ↦ elim (cut b'"' behind) [
      | none ↦ none
      | some (_, value) ↦ Option.map (λ p. p.0) (cut b'"' value)
    ]
  ]
]

unfoldable pub parse_ttl : Text → ℕ
parse_ttl body = elim (find ttl_name body) [
  | none ↦ 0
  | some pos ↦ elim (cut b':' (drop pos body)) [
    | none ↦ 0
    | some (_, behind) ↦ read_ttl 0 (skip_space behind)
  ]
]

-- parseJson
unfoldable pub parse_json : Text → Option (Text × ℕ)
parse_json body = Option.map (λ url. (url, parse_ttl body)) (parse_url body)

-- What the handlers share: the store, the Bloom filter where there is one, and the counters.
pub record Shared (S F : Type 0) : Type 0 where
  pub store : S
  pub bloom : Option F
  pub metrics : Metrics

-- The Bloom filter, by its operations.
pub record Filter (F : Type 0) : Type 0 where
  pub add : Text → F → F
  pub might_contain : Text → F → Bool

module _ {S F : Type 0} (store : Store S) (filter : Filter F) where
  abbrev pub count : (Metrics → Metrics) → Shared S F → Shared S F
  count f w = record w { metrics = f w.metrics }

  abbrev pub json : Text → HttpResponse → HttpResponse
  json body resp = set_body body (set_content_type (codes "application/json") resp)

  abbrev pub id_json : Text → Text
  id_json id = codes "{" ++ b'"' ∷ (codes "id" ++ b'"' ∷ b':' ∷ b'"' ∷ (id ++ b'"' ∷ codes "}"))

  abbrev pub bad_json : Text
  bad_json =
      codes "{"
      ++ b'"' ∷ (codes "error" ++ b'"' ∷ b':' ∷ b'"' ∷ (codes "invalid url" ++ b'"' ∷ codes "}"))

  unfoldable pub shortened : Text → HttpResponse → S → Shared S F → HttpResponse × Shared S F
  shortened id resp s w = (
    json (id_json id) (set_status_code ok_200 resp),
    record w {
      store = s;
      bloom = Option.map (filter.add id) w.bloom;
      metrics = record (w.metrics) {
        shorten_ok = next w.metrics.shorten_ok;
        store_setnx_ok = next w.metrics.store_setnx_ok;
      };
    },
  )

  -- the loop over the ids that the generator gives
  unfoldable pub try_ids :
      List Text → Text → ℕ → HttpResponse → Shared S F → HttpResponse × Shared S F
  try_ids [] url ttl resp w =
      (set_body (codes "exhausted id retries") (set_status_code internal_server_error_500 resp), w)
  try_ids (id ∷ ids) url ttl resp w =
      let (ok, s) = store.set_nx id url ttl w.store in
      let rest = try_ids ids url ttl resp (record w {
        store = s;
        metrics = record (w.metrics) { store_setnx_conflict = next w.metrics.store_setnx_conflict };
      }) in
      if ok then shortened id resp s w else rest

  unfoldable pub refused : HttpResponse → Shared S F → HttpResponse × Shared S F
  refused resp w = (
    json bad_json (set_status_code bad_request_400 resp),
    count (λ m. record m { shorten_bad = next m.shorten_bad }) w,
  )

  -- ShortenHandler::handle; `valid` is UrlValidator::valid, a std::regex, and `ids` the five ids that
  -- the generator would give.
  unfoldable pub shorten :
      (Text → Bool)
      → List Text
      → HttpRequest
      → HttpResponse
      → Shared S F
      → HttpResponse × Shared S F
  shorten valid ids req resp w = elim (parse_json req.content) [
    | none ↦ refused resp w
    | some (url, ttl) ↦ if valid url then try_ids ids url ttl resp w else refused resp w
  ]

  abbrev pub missing : HttpResponse → HttpResponse
  missing resp = set_body (codes "not found") (set_status_code not_found_404 resp)

  abbrev pub filtered : Text → Shared S F → Bool
  filtered id w = elim w.bloom [ none ↦ false | some f ↦ not (filter.might_contain id f) ]

  -- RedirectHandler::handle
  unfoldable pub redirect : HttpRequest → HttpResponse → Shared S F → HttpResponse × Shared S F
  redirect req resp w =
      let id = get_path_parameters (codes "param1") req in
      let (v, s) = store.get id w.store in
      if is_empty id
      then (set_body (codes "bad id") (set_status_code bad_request_400 resp), w)
      else if filtered id w
      then (missing resp, count (λ m. record m { redirect_miss = next m.redirect_miss }) w)
      else elim v [
        | none ↦ (
          missing resp,
          count
              (λ m. record m {
                redirect_miss = next m.redirect_miss;
                store_get_miss = next m.store_get_miss;
              })
              (record w { store = s }),
        )
        | some url ↦ (
          add_header (codes "X-Cacheable") (codes "1")
              (add_header (codes "Location") url (set_status_code moved_permanently_301 resp)),
          count
              (λ m. record m {
                redirect_ok = next m.redirect_ok;
                store_get_hit = next m.store_get_hit;
              })
              (record w { store = s }),
        )
      ]

-- HealthHandler::handle
unfoldable pub health : HttpResponse → HttpResponse
health resp = set_body (codes "ok") (set_status_code ok_200 resp)
