-- ===== src/HttpCache/Memory.antt =====
-- HttpCache/src/MemoryCacheLRU.cpp: a std::list of entries, the one used last in front, and a map from
-- keys to iterators into it. An iterator is the number of its node; `next_id` is one that no node has.
-- Each operation holds the lock of the cache, so operations are steps one after the other.
pub mod Nodes
pub mod Coherence
pub mod Operations
pub mod Contents
pub mod Eviction
pub mod History
use mathlib.Core.Option
use http.Prelude.{
  ℕ, zero, suc, ◌+◌, ◌-◌, ◌%◌, ◌^◌, Bool, List, [], ◌∷◌, Option, none, some, if◌then◌else◌, ltb,
  ◌==◌, length, foldl,
}
use http.Std.Text.{Text, starts_with}
use http.Std.Map.{lookup, insert, erase}
use http.HttpCache.{CachedEntry, CacheKey, cache_key_eq, entry_bytes}

pub record Node : Type 0 where
  pub id : ℕ
  pub key : CacheKey
  pub entry : CachedEntry

pub record MemoryCacheLru : Type 0 where
  pub cap_bytes : ℕ
  pub used_bytes : ℕ
  pub lru : List Node
  pub map : List (CacheKey × ℕ)
  pub next_id : ℕ

abbrev pub new_cache : ℕ → MemoryCacheLru
new_cache cap = record { cap_bytes = cap; used_bytes = 0; lru = []; map = []; next_id = 0 }

-- += and -= on a size_t
abbrev pub wrap_add : ℕ → ℕ → ℕ
wrap_add a b = (a + b) % 2 ^ 64

abbrev pub wrap_sub : ℕ → ℕ → ℕ
wrap_sub a b = (a + (2 ^ 64 - b % 2 ^ 64)) % 2 ^ 64

-- what an iterator points to, and std::list::erase at an iterator
unfoldable pub node_at : ℕ → List Node → Option Node
node_at i [] = none
node_at i (n ∷ ns) = if n.id == i then some n else node_at i ns

unfoldable pub erase_at : ℕ → List Node → List Node
erase_at i [] = []
erase_at i (n ∷ ns) = let rest = erase_at i ns in if n.id == i then ns else n ∷ rest

-- std::list::splice of the node at the iterator to the front
unfoldable pub to_front : ℕ → List Node → List Node
to_front i ns = elim (node_at i ns) [ none ↦ ns | some n ↦ n ∷ erase_at i ns ]

-- an assignment to the entry at the iterator, and its size
unfoldable pub assign_at : ℕ → CachedEntry → List Node → List Node
assign_at i e [] = []
assign_at i e (n ∷ ns) =
    let rest = assign_at i e ns in if n.id == i then record n { entry = e } ∷ ns else n ∷ rest

unfoldable pub bytes_at : ℕ → List Node → ℕ
bytes_at i ns = elim (node_at i ns) [ none ↦ 0 | some n ↦ entry_bytes n.entry ]

-- std::list::back and pop_back
unfoldable pub back : List Node → Option Node
back [] = none
back (n ∷ []) = some n
back (n ∷ m ∷ ns) = back (m ∷ ns)

unfoldable pub pop_back : List Node → List Node
pop_back [] = []
pop_back (n ∷ []) = []
pop_back (n ∷ m ∷ ns) = n ∷ pop_back (m ∷ ns)

-- one turn of the loop of evictIfNeeded, with the last node
unfoldable pub evict_back : Node → MemoryCacheLru → MemoryCacheLru
evict_back n c = record c {
  used_bytes = wrap_sub c.used_bytes (entry_bytes n.entry);
  map = erase n.key c.map;
  lru = pop_back c.lru;
}

-- The loop, on fuel: it pops at most as many nodes as there are.
unfoldable pub evict_loop : ℕ → MemoryCacheLru → MemoryCacheLru
evict_loop zero c = c
evict_loop (suc fuel) c = elim (back c.lru) [
  | none ↦ c
  | some n ↦
      let rest = evict_loop fuel (evict_back n c) in
      if ltb c.cap_bytes c.used_bytes then rest else c
]

unfoldable pub evict_if_needed : MemoryCacheLru → MemoryCacheLru
evict_if_needed c = evict_loop (length c.lru) c

unfoldable pub get : CacheKey → MemoryCacheLru → Option CachedEntry × MemoryCacheLru
get key c = elim (lookup key c.map) [
  | none ↦ (none, c)
  | some i ↦ (Option.map (λ n. n.entry) (node_at i c.lru), record c { lru = to_front i c.lru })
]

-- what `set` stores before it evicts: over the node that has the key, or in a new one
unfoldable pub replace : ℕ → CachedEntry → MemoryCacheLru → MemoryCacheLru
replace i e c = record c {
  used_bytes = wrap_add (wrap_sub c.used_bytes (bytes_at i c.lru)) (entry_bytes e);
  lru = to_front i (assign_at i e c.lru);
}

unfoldable pub emplace_front : CacheKey → CachedEntry → MemoryCacheLru → MemoryCacheLru
emplace_front key e c = record c {
  lru = record { id = c.next_id; key = key; entry = e } ∷ c.lru;
  map = insert key c.next_id c.map;
  used_bytes = wrap_add c.used_bytes (entry_bytes e);
  next_id = c.next_id + 1;
}

unfoldable pub set : CacheKey → CachedEntry → MemoryCacheLru → MemoryCacheLru
set key e c = if ltb c.cap_bytes (entry_bytes e) then c else elim (lookup key c.map) [
  | some i ↦ evict_if_needed (replace i e c)
  | none ↦ evict_if_needed (emplace_front key e c)
]

unfoldable pub del : CacheKey → MemoryCacheLru → MemoryCacheLru
del key c = elim (lookup key c.map) [
  | none ↦ c
  | some i ↦ record c {
    used_bytes = wrap_sub c.used_bytes (bytes_at i c.lru);
    lru = erase_at i c.lru;
    map = erase key c.map;
  }
]

-- one turn of the loop of purgePrefix, at a node
unfoldable pub purge_node : Text → MemoryCacheLru → Node → MemoryCacheLru
purge_node prefix c n =
    if starts_with prefix n.key.path_and_query
    then record c {
      used_bytes = wrap_sub c.used_bytes (entry_bytes n.entry);
      map = erase n.key c.map;
      lru = erase_at n.id c.lru;
    }
    else c

unfoldable pub purge_prefix : Text → MemoryCacheLru → MemoryCacheLru
purge_prefix prefix c = foldl (purge_node prefix) c c.lru
