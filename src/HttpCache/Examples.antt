-- ===== src/HttpCache/Examples.antt =====
-- Tests of the cache, and the theorems at concrete inputs.
use http.Prelude.{
  ◌+◌, ◌≤◌, ◌≡◌, refl, true, false, List, [], ◌∷◌, none, some, arith, text_eq, list_beq,
  if◌then◌else◌, ltb, foldl,
}
use http.Std.Text.{c_string, Text, codes, cut, find, starts_with}
use http.Std.Number.{to_string, atoi}
use http.Std.Map.{lookup, insert, erase, insert_sorted, compare_text}
use http.Http.Request.{HttpRequest, Method, new_request}
use http.Http.Response.{HttpResponse, new_response, status_line, version_and_code, add_header}
use http.HttpCache.{CachedEntry, CacheKey, CachePolicy, default_policy, entry_bytes, cache_key_eq}
use http.HttpCache.Memory.{
  MemoryCacheLru, new_cache, get, set, del, purge_prefix, purge_node, evict_if_needed, evict_loop,
  evict_back, emplace_front, replace, back, pop_back, node_at, erase_at, to_front, assign_at,
  bytes_at,
}
use http.HttpCache.Memory.Operations.{IsWf}
use http.HttpCache.Memory.Contents.{get-purge_prefix}
use http.HttpCache.Memory.Eviction.{Recent, set-Recent, get-set}
use http.HttpCache.Memory.History.{Command, get_key, set_key, del_key, run, history-IsWf}
use http.HttpCache.Caching.{
  memory_store, set_from_entry, parse_status_line, pack, before, after, serve, is_cacheable_request,
  is_cacheable_response, make_key, has_no_store, stale_warning,
}
use http.HttpCache.Caching.RoundTrip.{set_from_entry-pack}
use http.HttpCache.Caching.Hits.{before-after}

caching : Unit {0}
unfolding cut find starts_with to_string atoi lookup insert erase insert_sorted compare_text
    c_string status_line version_and_code add_header entry_bytes get set del purge_prefix purge_node
    evict_if_needed evict_loop evict_back emplace_front replace back pop_back node_at erase_at
    to_front assign_at bytes_at set_from_entry parse_status_line pack before after serve
    is_cacheable_request is_cacheable_response make_key has_no_store list_beq
caching = tt

abbrev key : Text → CacheKey
key path = record { method = codes "GET"; path_and_query = path; accept_encoding = [] }

-- an entry of four bytes
abbrev entry : Text → CachedEntry
entry body = record {
  status_line = [];
  headers = [];
  body = body;
  hard_expire = 0;
  soft_expire = 0;
}

abbrev a : CacheKey
a = key (codes "/a")

abbrev b : CacheKey
b = key (codes "/b")

abbrev c : CacheKey
c = key (codes "/c")

abbrev commands : List Command
commands = set_key a (entry (codes "aaaa")) ∷ set_key b (entry (codes "bbbb")) ∷ get_key a ∷ []

abbrev filled : MemoryCacheLru
filled = foldl run (new_cache 10) commands

filled-IsWf : IsWf filled
filled-IsWf = history-IsWf 10 commands (omega arith)

-- `b` was used longest ago, so a third entry of four bytes evicts it
evict_test :
    ((get a (set c (entry (codes "cccc")) filled)).0 ≡ some (entry (codes "aaaa")))
    × ((get b (set c (entry (codes "cccc")) filled)).0 ≡ none)
unfolding caching
evict_test = (refl, refl)

history-IsWf_example :
    IsWf (foldl run (new_cache 10) (set_key a (entry (codes "aaaa")) ∷ del_key a ∷ []))
history-IsWf_example =
    history-IsWf 10 (set_key a (entry (codes "aaaa")) ∷ del_key a ∷ []) (omega arith)

entry_fits : entry_bytes (entry (codes "cccc")) ≤ filled.cap_bytes
unfolding caching
entry_fits = omega arith

set-Recent_example :
    Recent c (entry (codes "cccc")) filled.lru (set c (entry (codes "cccc")) filled).lru
set-Recent_example = set-Recent c (entry (codes "cccc")) filled filled-IsWf entry_fits

get-purge_prefix_example :
    (get a (purge_prefix (codes "/a") filled)).0
    ≡ (if starts_with (codes "/a") (codes "/a") then none else (get a filled).0)
get-purge_prefix_example = get-purge_prefix (codes "/a") a filled filled-IsWf

abbrev found : HttpResponse
found = record (new_response false) {
  http_version = codes "HTTP/1.1";
  status_code = 200;
  status_message = codes "OK";
  headers = (codes "A", codes "1") ∷ (codes "B", codes "2") ∷ [];
  body = codes "hi";
}

abbrev policy : CachePolicy
policy = default_policy 1000

set_from_entry-pack_example :
    set_from_entry (pack policy 7 found) (new_response true)
    ≡ record found { close_connection = true }
unfolding caching
set_from_entry-pack_example =
    set_from_entry-pack policy 7 found (new_response true) ((refl, tt), (tt, tt)) (omega arith)
      (omega arith) (omega arith) (omega arith)

abbrev get_a : HttpRequest
get_a = record new_request { method = Method.get; path = codes "/a" }

abbrev empty : MemoryCacheLru
empty = new_cache 1000

empty-IsWf : IsWf empty
empty-IsWf = history-IsWf 1000 [] (omega arith)

before-after_example :
    (before memory_store policy 300006 get_a
      (new_response false)
      (after memory_store policy 7 get_a found empty)).0
    ≡ (if ltb 300006 (7 + policy.ttl)
        then (true, set_from_entry (pack policy 7 found) (new_response false))
        else if ltb 300006 (7 + policy.ttl + policy.stale_while_revalidate)
        then (true, stale_warning (set_from_entry (pack policy 7 found) (new_response false)))
        else (false, new_response false))
unfolding caching
before-after_example =
    before-after policy empty 7 300006 get_a get_a found (new_response false) empty-IsWf refl refl
      (omega arith) (omega arith) refl refl

get-set_example : (get c (set c (entry (codes "cccc")) filled)).0 ≡ some (entry (codes "cccc"))
get-set_example = get-set c (entry (codes "cccc")) filled filled-IsWf entry_fits
