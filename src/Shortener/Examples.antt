-- ===== src/Shortener/Examples.antt =====
-- Tests of the program, and the theorems at concrete inputs.
use http.Prelude.{◌≡◌, refl, true, false, List, [], ◌∷◌, ◌++◌, some, arith, text_eq, list_beq}
use http.Std.Text.{Text, codes, cut, find, starts_with, isspace, isdigit}
use http.Std.Number.{skip_space}
use http.Std.Map.{lookup, insert}
use http.Http.Request.{HttpRequest, new_request}
use http.Http.Response.{new_response}
use http.HttpCache.{default_policy}
use http.HttpCache.Memory.{MemoryCacheLru, new_cache}
use http.HttpCache.Caching as Caching
use http.Shortener.{Metrics, next}
use http.Shortener.Store.{memory_store, shard_get, shard_set, shard_of}
use http.Shortener.Store.Laws.{StoreLaws, HasShards, read_shards, memory_store_lem}
use http.Shortener.Handlers.{Shared, Filter, parse_json, parse_url, parse_ttl, read_ttl}
use http.Shortener.Guards.{Cached, adapter_after}
use http.Shortener.Guards.Laws.{adapter_after_stores_nothing}

shortening : Unit {0}
unfolding cut find starts_with isspace isdigit skip_space lookup insert shard_get shard_set shard_of
    parse_json parse_url parse_ttl read_ttl list_beq
shortening = tt

abbrev quote : Text → Text
quote s = b'"' ∷ (s ++ b'"' ∷ [])

parse_json_test :
    parse_json (
      codes "{"
      ++ quote (codes "url")
      ++ codes ": "
      ++ quote (codes "http://h")
      ++ codes ", "
      ++ quote (codes "ttl")
      ++ codes ": 60}")
    ≡ some (codes "http://h", 60)
unfolding shortening
parse_json_test = refl

abbrev zeros : Metrics
zeros = record {
  shorten_ok = 0;
  shorten_bad = 0;
  redirect_ok = 0;
  redirect_miss = 0;
  ratelimit_drops = 0;
  cache_hits = 0;
  cache_sets = 0;
  store_get_hit = 0;
  store_get_miss = 0;
  store_setnx_ok = 0;
  store_setnx_conflict = 0;
}

abbrev two_shards : List (List (Text × Text))
two_shards = [] ∷ ((codes "a", codes "http://h") ∷ []) ∷ []

-- a filter that remembers everything
abbrev remember : Filter (List Text)
remember = record { add = λ id ids. id ∷ ids; might_contain = λ id ids. true }

abbrev shared : Shared (List (List (Text × Text))) (List Text)
shared = record { store = two_shards; bloom = some []; metrics = zeros }

abbrev two : StoreLaws (memory_store 2) (HasShards 2) (read_shards 2)
two = memory_store_lem 2 (omega arith)

memory_store_lem_example : StoreLaws (memory_store 8) (HasShards 8) (read_shards 8)
memory_store_lem_example = memory_store_lem 8 (omega arith)

abbrev patterns : List Text
patterns = codes "data:" ∷ []

abbrev evil : HttpRequest
evil = record new_request { content = codes "data:x"; path = codes "/api/shorten" }

abbrev cached : Cached MemoryCacheLru
cached = record { cache = new_cache 1000; metrics = zeros }

adapter_after_stores_nothing_example :
    ((adapter_after Caching.memory_store
        (default_policy 1)
        7
        (new_response false)
        cached).world.cache
      ≡ new_cache 1000)
    × ((adapter_after Caching.memory_store
          (default_policy 1)
          7
          (new_response false)
          cached).world.metrics.cache_sets
        ≡ next 0)
adapter_after_stores_nothing_example =
    adapter_after_stores_nothing Caching.memory_store (default_policy 1) 7 (new_response false)
      cached
