-- ===== src/HttpCache/Memory/Coherence.antt =====
-- What holds between the list, the map and the counter of a cache, and that the elementary changes of
-- a cache keep it.

use http.Prelude.{
  subst, of_some, ℕ, ◌+◌, ◌^◌, ◌<◌, ◌≡◌, sym, ◌∙◌, List, [], ◌∷◌, none, some, arith, same, same_iff,
  All, Bool-cases, inl, inr,
}
use http.Std.Map.{lookup, erase, lookup-insert, lookup-erase}
use http.HttpCache.{CachedEntry, CacheKey, cache_key_eq, entry_bytes}
use http.HttpCache.Memory.{Node, MemoryCacheLru, emplace_front, wrap_sub}
use http.HttpCache.Memory.Nodes.{
  Apart, AllApart, node_of, without, id_of, total, All-without, without-AllApart, node_of-without,
  total-without, node_of_All, node_of_key,
}

-- No two nodes share a number or a key; the map leads from each key to the node that has it, and from
-- no other key; the counter is the size of all entries, without wrap-around.
pub record IsCoherent (c : MemoryCacheLru) : Type 0 where
  pub apart : AllApart c.lru
  pub below : All (λ n. n.id < c.next_id) c.lru
  pub index : (k : CacheKey) → lookup k c.map ≡ id_of k c.lru
  pub used : c.used_bytes ≡ total c.lru
  pub fits : total c.lru < 2 ^ 64

-- The cache without the key of a node.
abbrev pub removed : CacheKey → Node → MemoryCacheLru → MemoryCacheLru
removed k n c = record c {
  used_bytes = wrap_sub c.used_bytes (entry_bytes n.entry);
  map = erase k c.map;
  lru = without k c.lru;
}

wrap_sub_exact : (a b c : ℕ) → a ≡ b + c → a < 2 ^ 64 → wrap_sub a b ≡ c
wrap_sub_exact a b c h l = omega arith

pub removed_used :
    (k : CacheKey) (n : Node) (c : MemoryCacheLru)
    → IsCoherent c
    → node_of k c.lru ≡ some n
    → wrap_sub c.used_bytes (entry_bytes n.entry) ≡ total (without k c.lru)
removed_used k n c h e =
    let t = total-without k c.lru {n = n} e in
    wrap_sub_exact c.used_bytes (entry_bytes n.entry) (total (without k c.lru)) (h.used ∙ t)
      (omega (arith, h.used, h.fits))

pub removed-IsCoherent :
    (k : CacheKey) (n : Node) (c : MemoryCacheLru)
    → IsCoherent c
    → node_of k c.lru ≡ some n
    → IsCoherent (removed k n c)
removed-IsCoherent k n c h e =
    let t = total-without k c.lru {n = n} e in
    record {
      apart = without-AllApart k c.lru h.apart;
      below = All-without (λ m. m.id < c.next_id) k c.lru h.below;
      index =
          λ j. ground (arith, lookup-erase k j c.map, h.index j, node_of-without k j c.lru h.apart);
      used = removed_used k n c h e;
      fits = omega (arith, h.fits);
    }

Apart-sym : (n m : Node) → Apart n m → Apart m n
Apart-sym n m (a, b) = (λ e. a (sym e), ground (arith, same_iff n.key m.key, same_iff m.key n.key))

-- A node that is taken out is apart from those that stay.
pub node_of-Apart :
    (k : CacheKey) (ns : List Node) {n : Node}
    → AllApart ns
    → node_of k ns ≡ some n
    → All (Apart n) (without k ns)
node_of-Apart k [] a e = absurd (ground arith)
node_of-Apart k (m ∷ ns) {n} (p, a) e = elim (Bool-cases (same m.key k)) [
  | inl b ↦ let e' : m ≡ n = of_some (rw b at e) in rw b (subst (λ x. All (Apart x) ns) e' p)
  | inr b ↦
      let e' : node_of k ns ≡ some n = rw b at e in
      rw b (Apart-sym m n (node_of_All (Apart m) k ns p e'), node_of-Apart k ns a e')
]

-- The cache with the entry of a key replaced and its node in front.
abbrev pub fronted : CacheKey → Node → ℕ → MemoryCacheLru → MemoryCacheLru
fronted k n used c = record c { used_bytes = used; lru = n ∷ without k c.lru }

pub fronted-IsCoherent :
    (k : CacheKey) (n : Node) (e : CachedEntry) (used : ℕ) (c : MemoryCacheLru)
    → IsCoherent c
    → node_of k c.lru ≡ some n
    → used ≡ entry_bytes e + total (without k c.lru)
    → used < 2 ^ 64
    → IsCoherent (fronted k (record n { entry = e }) used c)
fronted-IsCoherent k n e used c h found u fits = record {
  apart = (node_of-Apart k c.lru h.apart found, without-AllApart k c.lru h.apart);
  below = (
    node_of_All (λ m. m.id < c.next_id) k c.lru h.below found,
    All-without (λ m. m.id < c.next_id) k c.lru h.below,
  );
  index = λ j. ground (
    arith,
    h.index j,
    node_of-without k j c.lru h.apart,
    node_of_key k c.lru found,
    same_iff k j,
  );
  used = u;
  fits = omega arith;
}

fresh_Apart :
    (k : CacheKey) (e : CachedEntry) (i : ℕ) (ns : List Node)
    → All (λ m. m.id < i) ns
    → node_of k ns ≡ none
    → All (Apart (record { id = i; key = k; entry = e })) ns
fresh_Apart k e i [] b h = tt
fresh_Apart k e i (n ∷ ns) (l, b) h = (
  (omega arith, ground (arith, same_iff k n.key, same_iff n.key k)),
  fresh_Apart k e i ns b (ground arith),
)

All-suc : (i : ℕ) (ns : List Node) → All (λ m. m.id < i) ns → All (λ m. m.id < i + 1) ns
All-suc i [] h = tt
All-suc i (n ∷ ns) (l, h) = (omega arith, All-suc i ns h)

pub emplace_front-IsCoherent :
    (k : CacheKey) (e : CachedEntry) (c : MemoryCacheLru)
    → IsCoherent c
    → lookup k c.map ≡ none
    → entry_bytes e + total c.lru < 2 ^ 64
    → IsCoherent (emplace_front k e c)
unfolding emplace_front
emplace_front-IsCoherent k e c h missing fits =
    let missing' : node_of k c.lru ≡ none = ground (arith, h.index k) in
    record {
      apart = (fresh_Apart k e c.next_id c.lru h.below missing', h.apart);
      below = (omega arith, All-suc c.next_id c.lru h.below);
      index = λ j. ground (arith, lookup-insert k j c.next_id c.map, h.index j);
      used = omega (arith, h.used);
      fits = omega arith;
    }
