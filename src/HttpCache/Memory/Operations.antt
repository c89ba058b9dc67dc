-- ===== src/HttpCache/Memory/Operations.antt =====
-- Every operation of the cache keeps it coherent and within its capacity.
use mathlib.Core.Option
use http.Prelude.{
  of_some, ◌⊎◌, ℕ, zero, suc, ◌^◌, ◌≤◌, ◌<◌, ◌≡◌, refl, ap, ◌∙◌, List, [], ◌∷◌, none, some, arith,
  same, ◌==◌, Bool-cases, Option-cases, inl, inr, ltb, length,
}
use http.Std.Map.{lookup}
use http.HttpCache.{CachedEntry, CacheKey, cache_key_eq, entry_bytes}
use http.HttpCache.Memory.{
  Node, MemoryCacheLru, node_at, erase_at, to_front, assign_at, bytes_at, back, evict_back,
  evict_loop, evict_if_needed, replace, emplace_front, wrap_add, wrap_sub, get, set, del,
}
use http.HttpCache.Memory.Nodes.{
  AllApart, node_of, without, total, total-without, node_at-node_of, erase_at-without, back-node_of,
  back-eq-none,
}
use http.HttpCache.Memory.Coherence.{
  IsCoherent, removed, removed_used, removed-IsCoherent, fronted, fronted-IsCoherent,
  emplace_front-IsCoherent,
}

-- A coherent cache that is not over its capacity, which is below 2 ^ 63.
pub record IsWf (c : MemoryCacheLru) : Type 0 where
  pub coherent : IsCoherent c
  pub within : c.used_bytes ≤ c.cap_bytes
  pub cap : c.cap_bytes < 2 ^ 63

-- The map is asked first: it knows the key exactly when a node has it, and then leads to that node.
pub lookup_cases :
    (k : CacheKey) (c : MemoryCacheLru)
    → IsCoherent c
    → ((lookup k c.map ≡ none) × (node_of k c.lru ≡ none))
      ⊎ ((n : Node) × (lookup k c.map ≡ some n.id) × (node_of k c.lru ≡ some n))
lookup_cases k c h = elim (Option-cases (node_of k c.lru)) [
  | inl e ↦ inl (h.index k ∙ ap (Option.map (λ (n : Node). n.id)) e, e)
  | inr (n, e) ↦ inr (n, h.index k ∙ ap (Option.map (λ (n : Node). n.id)) e, e)
]

pub evict_back-removed :
    (n : Node) (c : MemoryCacheLru)
    → IsCoherent c
    → back c.lru ≡ some n
    → evict_back n c ≡ removed n.key n c
unfolding evict_back
evict_back-removed n c h e = let (_, r) = back-node_of c.lru {n = n} h.apart e in rw r

length-without :
    (k : CacheKey) (ns : List Node) {n : Node}
    → node_of k ns ≡ some n
    → suc (length (without k ns)) ≡ length ns
length-without k [] e = absurd (ground arith)
length-without k (m ∷ ns) {n} e = elim (Bool-cases (same m.key k)) [
  | inl b ↦ rw b
  | inr b ↦ rw b (ap suc (length-without k ns {n = n} (rw b at e)))
]

empty_within : (c : MemoryCacheLru) → IsCoherent c → back c.lru ≡ none → c.used_bytes ≤ c.cap_bytes
empty_within c h e =
    let z : total c.lru ≡ 0 = ap total (back-eq-none c.lru e) in omega (arith, h.used)

-- The loop ends within the capacity, and changes neither the capacity nor the coherence.
evict_loop-IsCoherent :
    (fuel : ℕ) (c : MemoryCacheLru)
    → IsCoherent c
    → length c.lru ≤ fuel
    → IsCoherent (evict_loop fuel c)
      × ((evict_loop fuel c).used_bytes ≤ c.cap_bytes)
      × ((evict_loop fuel c).cap_bytes ≡ c.cap_bytes)
unfolding evict_loop
evict_loop-IsCoherent zero c h l = elim (Option-cases (back c.lru)) [
  | inl e ↦ (h, empty_within c h e, refl)
  | inr (n, e) ↦
      let (found, _) = back-node_of c.lru {n = n} h.apart e in
      absurd (omega (arith, length-without n.key c.lru {n = n} found))
]
evict_loop-IsCoherent (suc fuel) c h l = elim (Option-cases (back c.lru)) [
  | inl e ↦ rw (e, evict_loop) (h, empty_within c h e, refl)
  | inr (n, e) ↦ elim (Bool-cases (ltb c.cap_bytes c.used_bytes)) [
    | inl over ↦
        let (found, _) = back-node_of c.lru {n = n} h.apart e in
        rw (e, evict_loop, over, evict_back-removed n c h e)
          (evict_loop-IsCoherent fuel (removed n.key n c) (removed-IsCoherent n.key n c h found)
            (omega (arith, length-without n.key c.lru {n = n} found)))
    | inr under ↦ rw (e, evict_loop, under) (h, ground arith, refl)
  ]
]

pub evict_if_needed-IsWf :
    (c : MemoryCacheLru) → IsCoherent c → c.cap_bytes < 2 ^ 63 → IsWf (evict_if_needed c)
unfolding evict_if_needed
evict_if_needed-IsWf c h l =
    let (a, b, e) = evict_loop-IsCoherent (length c.lru) c h (omega arith) in
    record { coherent = a; within = omega arith; cap = omega arith }

node_at-assign_at :
    (i : ℕ) (e : CachedEntry) (ns : List Node) {n : Node}
    → node_at i ns ≡ some n
    → node_at i (assign_at i e ns) ≡ some (record n { entry = e })
unfolding node_at assign_at
node_at-assign_at i e [] h = absurd (ground arith)
node_at-assign_at i e (m ∷ ns) {n} h = elim (Bool-cases (m.id == i)) [
  | inl b ↦
      let e' : m ≡ n = of_some (rw b at h) in
      rw (b, b) (ap (λ (x : Node). some (record x { entry = e })) e')
  | inr b ↦ rw (b, b) (node_at-assign_at i e ns {n = n} (rw b at h))
]

erase_at-assign_at :
    (i : ℕ) (e : CachedEntry) (ns : List Node) → erase_at i (assign_at i e ns) ≡ erase_at i ns
unfolding erase_at assign_at
erase_at-assign_at i e [] = refl
erase_at-assign_at i e (m ∷ ns) = elim (Bool-cases (m.id == i)) [
  | inl b ↦ rw (b, b)
  | inr b ↦ rw (b, b) (ap (λ rest. m ∷ rest) (erase_at-assign_at i e ns))
]

-- `get`, `replace` and `del` at the iterator of a key, as changes at the key.
pub to_front-without :
    (k : CacheKey) (ns : List Node) {n : Node}
    → AllApart ns
    → node_of k ns ≡ some n
    → to_front n.id ns ≡ n ∷ without k ns
unfolding to_front
to_front-without k ns {n} a e =
    rw (node_at-node_of k ns {n = n} a e, to_front, erase_at-without k ns {n = n} a e)

pub bytes_at-node_of :
    (k : CacheKey) (ns : List Node) {n : Node}
    → AllApart ns
    → node_of k ns ≡ some n
    → bytes_at n.id ns ≡ entry_bytes n.entry
unfolding bytes_at
bytes_at-node_of k ns {n} a e = rw (node_at-node_of k ns {n = n} a e, bytes_at)

pub replace-fronted :
    (k : CacheKey) (n : Node) (e : CachedEntry) (c : MemoryCacheLru)
    → IsCoherent c
    → node_of k c.lru ≡ some n
    → replace n.id e c
      ≡ fronted k
          (record n { entry = e })
          (wrap_add (wrap_sub c.used_bytes (entry_bytes n.entry)) (entry_bytes e))
          c
unfolding replace to_front
replace-fronted k n e c h found =
    let at = node_at-node_of k c.lru {n = n} h.apart found in
    rw (
      bytes_at-node_of k c.lru {n = n} h.apart found,
      node_at-assign_at n.id e c.lru {n = n} at,
      to_front,
      erase_at-assign_at n.id e c.lru,
      erase_at-without k c.lru {n = n} h.apart found,
    )

emplace_front_cap :
    (k : CacheKey) (e : CachedEntry) (c : MemoryCacheLru)
    → c.cap_bytes < 2 ^ 63
    → (emplace_front k e c).cap_bytes < 2 ^ 63
unfolding emplace_front
emplace_front_cap k e c h = h

pub get-IsWf : (k : CacheKey) (c : MemoryCacheLru) → IsWf c → IsWf (get k c).1
unfolding get
get-IsWf k c h = elim (lookup_cases k c h.coherent) [
  | inl (e, _) ↦ rw (e, get) h
  | inr (n, e, found) ↦
      let t = total-without k c.lru {n = n} found in
      rw (e, get, to_front-without k c.lru {n = n} h.coherent.apart found)
        (record {
          coherent =
              fronted-IsCoherent k n n.entry c.used_bytes c h.coherent found (h.coherent.used ∙ t)
                (omega (arith, h.within, h.cap));
          within = h.within;
          cap = h.cap;
        })
]

pub del-IsWf : (k : CacheKey) (c : MemoryCacheLru) → IsWf c → IsWf (del k c)
unfolding del
del-IsWf k c h = elim (lookup_cases k c h.coherent) [
  | inl (e, _) ↦ rw (e, del) h
  | inr (n, e, found) ↦
      let t = total-without k c.lru {n = n} found in
      let u = removed_used k n c h.coherent found in
      rw
        (
          e,
          del,
          bytes_at-node_of k c.lru {n = n} h.coherent.apart found,
          erase_at-without k c.lru {n = n} h.coherent.apart found,
        )
        (record {
          coherent = removed-IsCoherent k n c h.coherent found;
          within = omega (arith, h.within, h.coherent.used);
          cap = h.cap;
        })
]

pub set-IsWf : (k : CacheKey) (e : CachedEntry) (c : MemoryCacheLru) → IsWf c → IsWf (set k e c)
unfolding set
set-IsWf k e c h = elim (Bool-cases (ltb c.cap_bytes (entry_bytes e))) [
  | inl large ↦ rw large h
  | inr small ↦
      let l : entry_bytes e ≤ c.cap_bytes = ground arith in
      elim (lookup_cases k c h.coherent) [
        | inl (missing, _) ↦
            rw (small, missing, set)
              (evict_if_needed-IsWf (emplace_front k e c)
                (emplace_front-IsCoherent k e c h.coherent missing
                  (omega (arith, h.within, h.cap, h.coherent.used)))
                (emplace_front_cap k e c h.cap))
        | inr (n, at, found) ↦
            let t = total-without k c.lru {n = n} found in
            let u = removed_used k n c h.coherent found in
            let used = wrap_add (wrap_sub c.used_bytes (entry_bytes n.entry)) (entry_bytes e) in
            rw (small, at, set, replace-fronted k n e c h.coherent found)
              (evict_if_needed-IsWf (fronted k (record n { entry = e }) used c)
                (fronted-IsCoherent k n e used c h.coherent found
                  (ap (λ a. wrap_add a (entry_bytes e)) u
                    ∙ omega (arith, h.within, h.cap, h.coherent.used))
                  (omega arith))
                h.cap)
      ]
]
