-- ===== src/HttpCache/Caching.antt =====
-- HttpCache/src/CacheMiddleware.cpp, over any store that has the operations of ICacheStore. `now` is
-- what the steady clock says, in ticks.
pub mod RoundTrip
pub mod Hits
use http.Prelude.{
  ℕ, ◌+◌, Bool, true, false, not, ◌&&◌, ◌||◌, List, [], ◌∷◌, Option, none, some, is_some,
  if◌then◌else◌, same, text_eq, ltb, ◌==◌, foldl,
}
use http.Std.Text.{Text, codes, cut, find, is_empty}
use http.Std.Number.{atoi}
use http.Http.Request.{HttpRequest, Method, get_header}
use http.Http.Response as Response
use http.Http.Response.{
  HttpResponse, set_status_line, set_body, clear_headers, add_header, status_line,
}
use http.HttpCache.{CachedEntry, CacheKey, CachePolicy, entry_bytes}
use http.HttpCache.Memory as Memory
use http.HttpCache.Memory.{MemoryCacheLru}

-- ICacheStore
pub record CacheStore (S : Type 0) : Type 0 where
  pub get : CacheKey → S → Option CachedEntry × S
  pub set : CacheKey → CachedEntry → S → S
  pub del : CacheKey → S → S
  pub purge_prefix : Text → S → S

abbrev pub memory_store : CacheStore MemoryCacheLru
memory_store = record {
  get = Memory.get;
  set = Memory.set;
  del = Memory.del;
  purge_prefix = Memory.purge_prefix;
}

-- getMethod
abbrev pub method_name : Method → Text
method_name Method.get = codes "GET"
method_name Method.head = codes "HEAD"
method_name Method.post = codes "POST"
method_name Method.put = codes "PUT"
method_name Method.delete = codes "DELETE"
method_name Method.options = codes "OPTIONS"
method_name Method.invalid = codes "UNKNOWN"

unfoldable pub has_no_store : HttpResponse → Bool
has_no_store resp =
    is_some (find (codes "no-store") (Response.get_header (codes "Cache-Control") resp))

-- The version, the code and the reason of a status line, with defaults for what it lacks.
unfoldable pub parse_status_line : Text → Text × ℕ × Text
parse_status_line line = elim (cut b' ' line) [
  | none ↦ (codes "HTTP/1.1", 200, codes "OK")
  | some (version, rest) ↦ elim (cut b' ' rest) [
    | none ↦ (version, 200, codes "OK")
    | some (code, reason) ↦ (version, atoi code, reason)
  ]
]

abbrev pub add_each : HttpResponse → Text × Text → HttpResponse
add_each out p = add_header p.0 p.1 out

unfoldable pub set_from_entry : CachedEntry → HttpResponse → HttpResponse
set_from_entry e out =
    let (version, code, reason) = parse_status_line e.status_line in
    set_body e.body
      (foldl add_each (clear_headers (set_status_line version code reason out)) e.headers)

unfoldable pub is_cacheable_request : CachePolicy → HttpRequest → Bool
is_cacheable_request p req =
    let m = method_name req.method in
    if p.respect_authorization && not (is_empty (get_header (codes "authorization") req))
    then false
    else if same m (codes "GET")
    then p.cache_get
    else if same m (codes "HEAD")
    then p.cache_head
    else false

unfoldable pub is_cacheable_response : CachePolicy → HttpResponse → Bool
is_cacheable_response p resp =
    let code = resp.status_code in
    if p.respect_no_store && has_no_store resp
    then false
    else ((code == 200) && p.cache_200)
      || (((code == 301) && p.cache_301) || ((code == 404) && p.cache_404))

unfoldable pub make_key : CachePolicy → HttpRequest → CacheKey
make_key p req = record {
  method = method_name req.method;
  path_and_query = req.path;
  accept_encoding = if p.vary_accept_encoding then get_header (codes "accept-encoding") req else [];
}

unfoldable pub pack : CachePolicy → ℕ → HttpResponse → CachedEntry
pack p now resp = record {
  status_line = status_line resp;
  headers = resp.headers;
  body = resp.body;
  hard_expire = now + p.ttl;
  soft_expire = now + p.ttl + p.stale_while_revalidate;
}

abbrev pub stale_warning : HttpResponse → HttpResponse
stale_warning = add_header (codes "Warning") (codes "110 - Response is Stale")

-- What an entry makes of the response at the given time: whether there is an answer, and which.
unfoldable pub serve : ℕ → CachedEntry → HttpResponse → Bool × HttpResponse
serve now e resp =
    if ltb now e.hard_expire
    then (true, set_from_entry e resp)
    else if ltb now e.soft_expire
    then (true, stale_warning (set_from_entry e resp))
    else (false, resp)

module _ {S : Type 0} (store : CacheStore S) (p : CachePolicy) where
  unfoldable pub before : ℕ → HttpRequest → HttpResponse → S → (Bool × HttpResponse) × S
  before now req resp s =
      let (hit, s') = store.get (make_key p req) s in
      if is_cacheable_request p req
      then elim hit [ none ↦ ((false, resp), s') | some e ↦ (serve now e resp, s') ]
      else ((false, resp), s)

  unfoldable pub after : ℕ → HttpRequest → HttpResponse → S → S
  after now req resp s =
      let e = pack p now resp in
      if is_cacheable_request p req && is_cacheable_response p resp
      then if ltb p.max_object_bytes (entry_bytes e) then s else store.set (make_key p req) e s
      else s

  -- purgePrefix
  unfoldable pub purge : Text → S → S
  purge prefix s = store.purge_prefix prefix s
