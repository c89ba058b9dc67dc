-- ===== src/Shortener.antt =====
-- apps/url_shortener: the counters, the store in memory, the handlers and the middlewares.
pub mod Store
pub mod Page
pub mod HashRing
pub mod Redis
pub mod MySql
pub mod Bloom
pub mod Limits
pub mod Ids
pub mod Program
pub mod Handlers
pub mod Guards
mod Examples
use http.Prelude.{ℕ, ◌+◌, ◌%◌, ◌^◌}

-- Metrics: the std::atomic<uint64_t> counters.
pub record Metrics : Type 0 where
  pub shorten_ok : ℕ
  pub shorten_bad : ℕ
  pub redirect_ok : ℕ
  pub redirect_miss : ℕ
  pub ratelimit_drops : ℕ
  pub cache_hits : ℕ
  pub cache_sets : ℕ
  pub store_get_hit : ℕ
  pub store_get_miss : ℕ
  pub store_setnx_ok : ℕ
  pub store_setnx_conflict : ℕ

-- fetch_add(1)
abbrev pub next : ℕ → ℕ
next n = (n + 1) % 2 ^ 64
