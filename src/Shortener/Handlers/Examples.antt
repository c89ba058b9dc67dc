-- ===== src/Shortener/Handlers/Examples.antt =====
-- A url that is shortened and found again, with a store in memory.
use http.Prelude.{◌≡◌, refl, true, false, List, [], ◌∷◌, ◌++◌, some, arith, text_eq, list_beq}
use http.Std.Text.{Text, codes, cut, find, starts_with, isspace, isdigit}
use http.Std.Number.{skip_space}
use http.Std.Map.{lookup}
use http.Http.Request.{HttpRequest, new_request}
use http.Http.Response as Response
use http.Http.Response.{HttpResponse, new_response}
use http.Shortener.{Metrics}
use http.Shortener.Store.{memory_store, shard_get, shard_of}
use http.Shortener.Store.Laws.{StoreLaws, HasShards, read_shards, memory_store_lem}
use http.Shortener.Handlers.{Shared, parse_json, parse_url, parse_ttl, read_ttl, shorten, redirect}
use http.Shortener.Handlers.Links.{IsReady, shorten_all, redirect-shorten}
use http.Shortener.Bloom.{Bloom, new_bloom, bloom_filter}
use http.Shortener.Bloom.Laws.{new_bloom-IsWf}

abbrev counters : Metrics
counters = record {
  shorten_ok = 0;
  shorten_bad = 0;
  redirect_ok = 0;
  redirect_miss = 0;
  ratelimit_drops = 0;
  cache_hits = 0;
  cache_sets = 0;
  store_get_hit = 0;
  store_get_miss = 0;
  store_setnx_ok = 0;
  store_setnx_conflict = 0;
}

abbrev shared : Shared (List (List (Text × Text))) Bloom
shared = record { store = [] ∷ [] ∷ []; bloom = some (new_bloom 1048576); metrics = counters }

abbrev two : StoreLaws (memory_store 2) (HasShards 2) (read_shards 2)
two = memory_store_lem 2 (omega arith)

abbrev shared-IsReady : IsReady (memory_store 2) (HasShards 2) (read_shards 2) two shared
shared-IsReady = record {
  store_ok = refl;
  filter = new_bloom 1048576;
  bloom = refl;
  filter_ok = new_bloom-IsWf 1048576 (omega arith);
}

abbrev quoted : Text → Text
quoted s = b'"' ∷ (s ++ b'"' ∷ [])

abbrev post : Text → HttpRequest
post url = record new_request {
  content = codes "{" ++ (quoted (codes "url") ++ (b':' ∷ quoted url ++ codes "}"));
}

abbrev to_b : HttpRequest
to_b = record new_request { path_parameters = (codes "param1", codes "b") ∷ [] }

abbrev later : Shared (List (List (Text × Text))) Bloom
later =
    shorten_all (memory_store 2) (HasShards 2) (read_shards 2) two (λ u. true)
      ((post (codes "http://g"), new_response false, codes "b" ∷ codes "c" ∷ []) ∷ [])
      (shorten (memory_store 2) bloom_filter (λ u. true) (codes "b" ∷ []) (post (codes "http://h"))
        (new_response false) shared).1

redirect-shorten_example :
    ((redirect (memory_store 2) bloom_filter to_b (new_response false) later).0.status_code ≡ 301)
    × (Response.get_header
          (codes "Location")
          (redirect (memory_store 2) bloom_filter to_b (new_response false) later).0
        ≡ codes "http://h")
unfolding cut find starts_with isspace isdigit skip_space lookup shard_get shard_of parse_json
    parse_url parse_ttl read_ttl list_beq
redirect-shorten_example =
    redirect-shorten (memory_store 2) (HasShards 2) (read_shards 2) two (λ u. true) (codes "b") []
      (post (codes "http://h")) to_b (new_response false) (new_response false) (codes "http://h") 0
      shared ((post (codes "http://g"), new_response false, codes "b" ∷ codes "c" ∷ []) ∷ [])
      shared-IsReady refl refl refl refl refl
