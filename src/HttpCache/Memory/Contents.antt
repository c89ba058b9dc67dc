-- ===== src/HttpCache/Memory/Contents.antt =====
-- What the cache gives for a key after each operation.
use mathlib.Core.Option
use http.Prelude.{
  subst, ◌≡◌, sym, ap, ◌∙◌, List, [], ◌∷◌, Option, none, some, arith, same, same_iff, same_refl,
  All, if◌then◌else◌, ◌&&◌, Bool-cases, inl, inr, foldl, is_some,
}
use http.Std.Text.{Text, starts_with}
use http.HttpCache.{CachedEntry, CacheKey, cache_key_eq}
use http.HttpCache.Memory.{Node, MemoryCacheLru, get, del, purge_node, purge_prefix}
use http.HttpCache.Memory.Nodes.{
  Apart, AllApart, node_of, node_of-without, total-without, node_of_key, node_of_single,
  node_at-node_of, erase_at-without,
}
use http.HttpCache.Memory.Coherence.{IsCoherent, removed, removed_used, removed-IsCoherent}
use http.HttpCache.Memory.Operations.{IsWf, lookup_cases, to_front-without, get-IsWf, del-IsWf}

abbrev pub entry_of : Option Node → Option CachedEntry
entry_of = Option.map (λ n. n.entry)

-- `get` gives the entry of the node with the key.
pub get-node_of :
    (k : CacheKey) (c : MemoryCacheLru) → IsCoherent c → (get k c).0 ≡ entry_of (node_of k c.lru)
unfolding get
get-node_of k c h = elim (lookup_cases k c h) [
  | inl (e, missing) ↦ rw (e, get, missing)
  | inr (n, e, found) ↦ rw (e, get, node_at-node_of k c.lru {n = n} h.apart found, found)
]

-- Loop of purgePrefix: the nodes `ns` that it has still to visit are in the list.
abbrev IsIn : MemoryCacheLru → Node → Type 0
IsIn c n = node_of n.key c.lru ≡ some n

purge_node-removed :
    (prefix : Text) (n : Node) (c : MemoryCacheLru)
    → IsCoherent c
    → IsIn c n
    → purge_node prefix c n
      ≡ (if starts_with prefix n.key.path_and_query then removed n.key n c else c)
unfolding purge_node
purge_node-removed prefix n c h e = rw (erase_at-without n.key c.lru {n = n} h.apart e)

removed-IsIn :
    (n : Node) (c : MemoryCacheLru) (ns : List Node)
    → IsCoherent c
    → All (Apart n) ns
    → All (IsIn c) ns
    → All (IsIn (removed n.key n c)) ns
removed-IsIn n c [] h a i = tt
removed-IsIn n c (m ∷ ns) h ((_, d), a) (i, is) =
    (node_of-without n.key m.key c.lru h.apart ∙ rw d i, removed-IsIn n c ns h a is)

removed-IsWf :
    (k : CacheKey) (n : Node) (c : MemoryCacheLru)
    → IsWf c
    → node_of k c.lru ≡ some n
    → IsWf (removed k n c)
removed-IsWf k n c h e =
    let t = total-without k c.lru {n = n} e in
    let u = removed_used k n c h.coherent e in
    record {
      coherent = removed-IsCoherent k n c h.coherent e;
      within = omega (arith, h.within, h.coherent.used);
      cap = h.cap;
    }

abbrev Purged : Text → List Node → MemoryCacheLru → MemoryCacheLru → Type 0
Purged prefix ns c c' =
    IsWf c'
    × ((j : CacheKey)
        → node_of j c'.lru ≡ (
            if starts_with prefix j.path_and_query && is_some (node_of j ns)
            then none
            else node_of j c.lru))

purge_loop :
    (prefix : Text) (ns : List Node) (c : MemoryCacheLru)
    → IsWf c
    → AllApart ns
    → All (IsIn c) ns
    → Purged prefix ns c (foldl (purge_node prefix) c ns)
purge_loop prefix [] c h a i = (h, λ j. ground arith)
purge_loop prefix (n ∷ ns) c h (p, a) (i, is) =
    elim (Bool-cases (starts_with prefix n.key.path_and_query)) [
      | inl b ↦
          let c' = removed n.key n c in
          let (w, r) =
            purge_loop prefix ns c' (removed-IsWf n.key n c h i) a
              (removed-IsIn n c ns h.coherent p is) in
          let step : purge_node prefix c n ≡ c' =
            purge_node-removed prefix n c h.coherent i ∙ (rw b) in
          subst (λ x. Purged prefix (n ∷ ns) c (foldl (purge_node prefix) x ns)) (sym step)
            (
              w,
              λ j.
                  r j
                  ∙ ground
                      (arith, node_of-without n.key j c.lru h.coherent.apart, same_iff n.key j),
            )
      | inr b ↦
          let (w, r) = purge_loop prefix ns c h a is in
          let step : purge_node prefix c n ≡ c =
            purge_node-removed prefix n c h.coherent i ∙ (rw b) in
          subst (λ x. Purged prefix (n ∷ ns) c (foldl (purge_node prefix) x ns)) (sym step)
            (w, λ j. r j ∙ ground (arith, same_iff n.key j, node_of_single n ns p))
    ]

All-IsIn : (ns : List Node) → AllApart ns → All (λ n. node_of n.key ns ≡ some n) ns
All-IsIn [] a = tt
All-IsIn (n ∷ ns) (p, a) = (rw (same_refl n.key), later ns p (All-IsIn ns a))
  where
    later :
        (ms : List Node)
        → All (Apart n) ms
        → All (λ m. node_of m.key ns ≡ some m) ms
        → All (λ m. node_of m.key (n ∷ ns) ≡ some m) ms
    later [] p h = tt
    later (m ∷ ms) ((_, d), p) (e, h) = (rw d e, later ms p h)

purge_prefix_lem :
    (prefix : Text) (c : MemoryCacheLru) → IsWf c → Purged prefix c.lru c (purge_prefix prefix c)
unfolding purge_prefix
purge_prefix_lem prefix c h =
    purge_loop prefix c.lru c h h.coherent.apart (All-IsIn c.lru h.coherent.apart)

pub purge_prefix-IsWf : (prefix : Text) (c : MemoryCacheLru) → IsWf c → IsWf (purge_prefix prefix c)
purge_prefix-IsWf prefix c h = (purge_prefix_lem prefix c h).0

-- After purgePrefix, the keys whose path starts with the prefix are not cached, and every other key
-- has what it had.
pub get-purge_prefix :
    (prefix : Text) (k : CacheKey) (c : MemoryCacheLru)
    → IsWf c
    → (get k (purge_prefix prefix c)).0
      ≡ (if starts_with prefix k.path_and_query then none else (get k c).0)
get-purge_prefix prefix k c h =
    let (w, r) = purge_prefix_lem prefix c h in
    get-node_of k (purge_prefix prefix c) w.coherent
    ∙ ap entry_of (r k)
    ∙ ground (arith, get-node_of k c h.coherent)

del-node_of :
    (k j : CacheKey) (c : MemoryCacheLru)
    → IsCoherent c
    → node_of j (del k c).lru ≡ (if same k j then none else node_of j c.lru)
unfolding del
del-node_of k j c h = elim (lookup_cases k c h) [
  | inl (e, missing) ↦ rw (e, del) (ground (arith, same_iff k j))
  | inr (n, e, found) ↦
      rw (e, del, erase_at-without k c.lru {n = n} h.apart found)
        (node_of-without k j c.lru h.apart)
]

-- After `del`, the key is not cached, and every other key has what it had.
pub get-del :
    (k j : CacheKey) (c : MemoryCacheLru)
    → IsWf c
    → (get j (del k c)).0 ≡ (if same k j then none else (get j c).0)
get-del k j c h =
    get-node_of j (del k c) (del-IsWf k c h).coherent
    ∙ ap entry_of (del-node_of k j c h.coherent)
    ∙ ground (arith, get-node_of j c h.coherent)

get_kept :
    (k j : CacheKey) (c : MemoryCacheLru)
    → IsCoherent c
    → node_of j (get k c).1.lru ≡ node_of j c.lru
unfolding get
get_kept k j c h = elim (lookup_cases k c h) [
  | inl (e, _) ↦ rw (e, get)
  | inr (n, e, found) ↦
      rw (e, get, to_front-without k c.lru {n = n} h.apart found)
        (ground (
          arith,
          node_of-without k j c.lru h.apart,
          node_of_key k c.lru {n = n} found,
          same_iff k j,
        ))
]

-- `get` changes no key's entry.
pub get-get : (k j : CacheKey) (c : MemoryCacheLru) → IsWf c → (get j (get k c).1).0 ≡ (get j c).0
get-get k j c h =
    get-node_of j (get k c).1 (get-IsWf k c h).coherent
    ∙ ap entry_of (get_kept k j c h.coherent)
    ∙ sym (get-node_of j c h.coherent)
