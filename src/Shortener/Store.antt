-- ===== src/Shortener/Store.antt =====
-- IStore.h, KVStore.h, MemoryStore.h and CacheAsideStore.h.
pub mod Laws
use http.Prelude.{
  ℕ, zero, suc, ◌%◌, Bool, true, false, List, [], ◌∷◌, Option, none, some, text_eq, if◌then◌else◌,
}
use http.Std.Text.{Text}
use http.Std.Map.{lookup, insert}

-- IStore, over a state `S`; the last number of `set_nx` and `set` is the time to live, in seconds.
pub record Store (S : Type 0) : Type 0 where
  pub get : Text → S → Option Text × S
  pub set_nx : Text → Text → ℕ → S → Bool × S
  pub set : Text → Text → ℕ → S → S
  pub del : Text → S → S

-- KVStore: the map of each shard. A shard that is not there reads as empty and is not written.
unfoldable pub shard_get : ℕ → Text → List (List (Text × Text)) → Option Text
shard_get i k [] = none
shard_get zero k (m ∷ ms) = lookup k m
shard_get (suc i) k (m ∷ ms) = shard_get i k ms

unfoldable pub shard_set : ℕ → Text → Text → List (List (Text × Text)) → List (List (Text × Text))
shard_set i k v [] = []
shard_set zero k v (m ∷ ms) = insert k v m ∷ ms
shard_set (suc i) k v (m ∷ ms) = m ∷ shard_set i k v ms

-- `(unsigned char)key[0] % shards_`; the empty key reads the 0 at its end.
unfoldable pub shard_of : ℕ → Text → ℕ
shard_of shards [] = 0
shard_of shards (c ∷ key) = c % shards

-- MemoryStore, with the number of shards. The time to live is not used, and del does nothing.
abbrev pub memory_store : ℕ → Store (List (List (Text × Text)))
memory_store shards = record {
  get = λ key kv. (shard_get (shard_of shards key) key kv, kv);
  set_nx = λ key value ttl kv. elim (shard_get (shard_of shards key) key kv) [
    | some v ↦ (false, kv)
    | none ↦ (true, shard_set (shard_of shards key) key value kv)
  ];
  set = λ key value ttl kv. shard_set (shard_of shards key) key value kv;
  del = λ key kv. kv;
}

-- CacheAsideStore with both its stores: Redis, the cache, and MySQL, which decides. `backfill` is
-- the time to live of what is copied into the cache.
module _ {R M : Type 0} (redis : Store R) (mysql : Store M) (backfill : ℕ) where
  unfoldable pub aside_get : Text → R × M → Option Text × (R × M)
  aside_get key (r, m) =
      let (cached, r') = redis.get key r in
      let (kept, m') = mysql.get key m in
      elim cached [
        | some v ↦ (some v, (r', m))
        | none ↦ elim kept [
          | some v ↦ (some v, (redis.set key v backfill r', m'))
          | none ↦ (none, (r', m'))
        ]
      ]

  unfoldable pub aside_set_nx : Text → Text → ℕ → R × M → Bool × (R × M)
  aside_set_nx key value ttl (r, m) =
      let (ok, m') = mysql.set_nx key value ttl m in
      if ok then (true, (redis.set key value ttl r, m')) else (false, (r, m'))

  unfoldable pub aside_set : Text → Text → ℕ → R × M → R × M
  aside_set key value ttl (r, m) = (redis.set key value ttl r, mysql.set key value ttl m)

  unfoldable pub aside_del : Text → R × M → R × M
  aside_del key (r, m) = (redis.del key r, mysql.del key m)

  abbrev pub cache_aside_store : Store (R × M)
  cache_aside_store = record {
    get = aside_get;
    set_nx = aside_set_nx;
    set = aside_set;
    del = aside_del;
  }
