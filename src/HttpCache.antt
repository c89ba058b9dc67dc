-- ===== src/HttpCache.antt =====
-- HttpCache/include/http_cache: CacheEntry.h, CacheKey.h and CachePolicy.h. Time points are numbers of
-- clock ticks.
pub mod Memory
pub mod Caching
mod Examples
use http.Prelude.{
  ◌*◌, ℕ, ◌+◌, ◌%◌, ◌^◌, ◌≡◌, ◌↔◌, Bool, true, ◌&&◌, List, [], ◌∷◌, arith, Eq, same, same_iff,
  text_eq, length,
}
use http.Std.Text.{Text}
use http.Std.Bits.{xor_bits}

pub record CachedEntry : Type 0 where
  pub status_line : Text
  pub headers : List (Text × Text)
  pub body : Text
  pub hard_expire : ℕ
  pub soft_expire : ℕ

-- The bytes of the headers, added to `n`.
abbrev pub header_bytes : ℕ → List (Text × Text) → ℕ
header_bytes n [] = n
header_bytes n ((key, value) ∷ hs) = header_bytes (n + (length key + length value)) hs

-- CachedEntry::bytes(), a size_t
unfoldable pub entry_bytes : CachedEntry → ℕ
entry_bytes e = header_bytes (length e.status_line + length e.body) e.headers % 2 ^ 64

pub record CacheKey : Type 0 where
  pub method : Text
  pub path_and_query : Text
  pub accept_encoding : Text

abbrev pub cache_key_beq : CacheKey → CacheKey → Bool
cache_key_beq a b =
    same a.method b.method
    && (same a.path_and_query b.path_and_query && same a.accept_encoding b.accept_encoding)

pub cache_key_beq_iff : (a b : CacheKey) → (cache_key_beq a b ≡ true) ↔ (a ≡ b)
cache_key_beq_iff a b = ground (
  arith,
  same_iff a.method b.method,
  same_iff a.path_and_query b.path_and_query,
  same_iff a.accept_encoding b.accept_encoding,
)

-- CacheKeyHash; `hash_text` is std::hash
unfoldable pub cache_key_hash : (Text → ℕ) → CacheKey → ℕ
cache_key_hash hash_text k =
    xor_bits 64 (xor_bits 64 (hash_text k.method) (hash_text k.path_and_query * 2 % 2 ^ 64))
      (hash_text k.accept_encoding * 4 % 2 ^ 64)

instance abbrev pub cache_key_eq : Eq CacheKey
cache_key_eq = record { beq = cache_key_beq; beq_iff = cache_key_beq_iff }

-- The times are in ticks, of which `second` make a second. `store` has one value only.
pub record CachePolicy : Type 0 where
  pub cache_get : Bool
  pub cache_head : Bool
  pub cache_200 : Bool
  pub cache_301 : Bool
  pub cache_404 : Bool
  pub memory_capacity_bytes : ℕ
  pub max_object_bytes : ℕ
  pub ttl : ℕ
  pub stale_while_revalidate : ℕ
  pub vary_accept_encoding : Bool
  pub respect_no_store : Bool
  pub respect_authorization : Bool

abbrev pub default_policy : ℕ → CachePolicy
default_policy second = record {
  cache_get = true;
  cache_head = true;
  cache_200 = true;
  cache_301 = true;
  cache_404 = true;
  memory_capacity_bytes = 64 * 1024 * 1024;
  max_object_bytes = 1048576;
  ttl = 300 * second;
  stale_while_revalidate = 60 * second;
  vary_accept_encoding = true;
  respect_no_store = true;
  respect_authorization = true;
}
