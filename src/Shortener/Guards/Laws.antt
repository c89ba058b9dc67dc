-- ===== src/Shortener/Guards/Laws.antt =====
-- What the middlewares of the program let through.
use http.Prelude.{
  ℕ, ◌≡◌, ◌↔◌, ◌⊎◌, refl, true, false, List, [], ◌∷◌, some, is_some, arith, same, text_eq, list_beq,
  Bool-cases, inl, inr,
}
use http.Std.Text.{Text, codes, find, is_empty}
use http.Http.Request.{HttpRequest, new_request}
use http.Http.Response.{HttpResponse}
use http.Exceptions.{response, raise}
use http.Middleware.{MiddlewareChain, process_before}
use http.HttpCache.{CachePolicy}
use http.HttpCache.Caching.{CacheStore}
use http.HttpCache.Caching.Hits.{uncacheable_method}
use http.Shortener.{next}
use http.Shortener.Guards.{
  is_blocked, blacklist_before, blacklist_middleware, checked_text, blocked_response, Cached,
  adapter_after,
}

-- Some pattern that is not empty occurs in the text.
abbrev pub Hits : List Text → Text → Type 0
Hits [] text = ⊥
Hits (p ∷ ps) text = ((is_empty p ≡ false) × (is_some (find p text) ≡ true)) ⊎ Hits ps text

pub is_blocked_iff : (ps : List Text) (text : Text) → (is_blocked ps text ≡ true) ↔ Hits ps text
unfolding is_blocked
is_blocked_iff [] text = ground arith
is_blocked_iff (p ∷ ps) text = ground (arith, is_blocked_iff ps text)

-- A request gets past the blacklist exactly when no pattern that is not empty occurs in its body and
-- path, and then unchanged; otherwise the answer is 400, whatever stands behind.
pub blacklist_before_lem :
    {W : Type 0} (patterns : List Text) (behind : MiddlewareChain W) (req : HttpRequest) (w : W)
    → (Hits patterns (checked_text req)
        → process_before (some (blacklist_middleware patterns) ∷ behind) req w
          ≡ raise (response blocked_response) req w)
      × (¬ Hits patterns (checked_text req)
          → process_before (some (blacklist_middleware patterns) ∷ behind) req w
            ≡ process_before behind req w)
unfolding process_before blacklist_before
blacklist_before_lem patterns behind req w =
    let (a, b) = is_blocked_iff patterns (checked_text req) in
    (
      λ h. rw (b h),
      λ n. elim (Bool-cases (is_blocked patterns (checked_text req))) [
        | inl e ↦ absurd (n (a e))
        | inr e ↦ rw e
      ],
    )

no_method :
    (same (codes "UNKNOWN") (codes "GET") ≡ false) × (same (codes "UNKNOWN") (codes "HEAD") ≡ false)
unfolding list_beq
no_method = (refl, refl)

-- The second phase of the cache's adapter stores nothing, whatever the response: it asks the cache
-- about an empty request, whose method is not a cacheable one. It counts a stored response all the
-- same.
pub adapter_after_stores_nothing :
    {S : Type 0} (store : CacheStore S) (policy : CachePolicy) (now : ℕ) (resp : HttpResponse)
    (w : Cached S)
    → ((adapter_after store policy now resp w).world.cache ≡ w.cache)
      × ((adapter_after store policy now resp w).world.metrics.cache_sets
          ≡ next w.metrics.cache_sets)
unfolding adapter_after
adapter_after_stores_nothing store policy now resp w =
    ((uncacheable_method store policy now new_request resp w.cache no_method.0 no_method.1).1, refl)
