-- ===== src/HttpCache/Caching/Hits.antt =====
-- What the cache answers.
use http.Prelude.{ℕ, ◌+◌, ◌≤◌, ◌≡◌, refl, true, false, arith, same, text_eq, if◌then◌else◌, ltb}
use http.Std.Text.{codes}
use http.Http.Request.{HttpRequest}
use http.Http.Response.{HttpResponse}
use http.HttpCache.{CachePolicy, entry_bytes}
use http.HttpCache.Memory.{MemoryCacheLru}
use http.HttpCache.Memory.Operations.{IsWf}
use http.HttpCache.Memory.Eviction.{get-set}
use http.HttpCache.Caching.{
  CacheStore, memory_store, is_cacheable_request, is_cacheable_response, make_key, pack, serve,
  before, after, set_from_entry, stale_warning, method_name,
}

-- A cacheable response to a cacheable request, not larger than the policy and the cache allow, is
-- kept. The next request with the same key is answered from it: as it was before `ttl` has passed,
-- with a warning for `stale_while_revalidate` more, and not at all afterwards.
pub before-after :
    (p : CachePolicy) (c : MemoryCacheLru) (stored now : ℕ) (req req' : HttpRequest)
    (resp out : HttpResponse)
    → IsWf c
    → is_cacheable_request p req ≡ true
    → is_cacheable_response p resp ≡ true
    → entry_bytes (pack p stored resp) ≤ p.max_object_bytes
    → entry_bytes (pack p stored resp) ≤ c.cap_bytes
    → is_cacheable_request p req' ≡ true
    → make_key p req' ≡ make_key p req
    → (before memory_store p now req' out (after memory_store p stored req resp c)).0 ≡ (
        if ltb now (stored + p.ttl)
        then (true, set_from_entry (pack p stored resp) out)
        else if ltb now (stored + p.ttl + p.stale_while_revalidate)
        then (true, stale_warning (set_from_entry (pack p stored resp) out))
        else (false, out))
unfolding before after serve
before-after p c stored now req req' resp out h a b l m a' k =
    let e = pack p stored resp in
    let small : ltb p.max_object_bytes (entry_bytes e) ≡ false = ground arith in
    let hit = get-set (make_key p req) e c h m in
    rw (a, b, small, a', k, hit, before) (unfold pack in refl)

-- The cache neither answers nor stores a request whose method is neither GET nor HEAD.
pub uncacheable_method :
    {S : Type 0} (store : CacheStore S) (p : CachePolicy) (now : ℕ) (req : HttpRequest)
    (resp : HttpResponse) (s : S)
    → same (method_name req.method) (codes "GET") ≡ false
    → same (method_name req.method) (codes "HEAD") ≡ false
    → (before store p now req resp s ≡ ((false, resp), s)) × (after store p now req resp s ≡ s)
unfolding before after is_cacheable_request
uncacheable_method store p now req resp s g h = (ground arith, ground arith)
