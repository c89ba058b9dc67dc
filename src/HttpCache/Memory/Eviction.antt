-- ===== src/HttpCache/Memory/Eviction.antt =====
-- What `set` stores and what it evicts.
use http.HttpCache.Memory.Contents.{get-node_of, entry_of}
use http.Prelude.{
  lt→ltb, of_some, subst, ℕ, zero, suc, ◌+◌, ◌≤◌, ◌<◌, ◌≡◌, refl, sym, ap, ◌∙◌, false, List, [],
  ◌∷◌, ◌++◌, none, some, arith, same, same_iff, Bool-cases, Option-cases, inl, inr, ltb, length,
  append_assoc, append-nil,
}
use http.HttpCache.{CachedEntry, CacheKey, cache_key_eq, entry_bytes}
use http.HttpCache.Memory.{
  Node, MemoryCacheLru, back, pop_back, evict_back, evict_loop, evict_if_needed, emplace_front,
  wrap_add, wrap_sub, get, set,
}
use http.HttpCache.Memory.Nodes.{
  node_of, without, total, total-without, node_of_key, back-node_of, back-eq-none,
}
use http.HttpCache.Memory.Coherence.{
  IsCoherent, removed_used, removed-IsCoherent, fronted, fronted-IsCoherent,
  emplace_front-IsCoherent,
}
use http.HttpCache.Memory.Operations.{
  IsWf, lookup_cases, replace-fronted, set-IsWf, evict_back-removed,
}

back-pop_back : (ns : List Node) {n : Node} → back ns ≡ some n → ns ≡ pop_back ns ++ n ∷ []
unfolding back pop_back
back-pop_back [] e = absurd (ground arith)
back-pop_back (m ∷ []) e = ap (λ (x : Node). x ∷ []) (of_some e)
back-pop_back (m ∷ l ∷ ns) {n} e = ap (λ rest. m ∷ rest) (back-pop_back (l ∷ ns) {n = n} e)

-- The loop takes nodes off the end and leaves the others as they are.
evict_loop-suffix :
    (fuel : ℕ) (c : MemoryCacheLru)
    → (dropped : List Node) × (c.lru ≡ (evict_loop fuel c).lru ++ dropped)
unfolding evict_loop evict_back
evict_loop-suffix zero c = ([], sym (append-nil c.lru))
evict_loop-suffix (suc fuel) c = elim (Option-cases (back c.lru)) [
  | inl e ↦ rw (e, evict_loop) ([], sym (append-nil c.lru))
  | inr (n, e) ↦ elim (Bool-cases (ltb c.cap_bytes c.used_bytes)) [
    | inr under ↦ rw (e, evict_loop, under) ([], sym (append-nil c.lru))
    | inl over ↦
        let (dropped, p) = evict_loop-suffix fuel (evict_back n c) in
        rw (e, evict_loop, over)
          (
            dropped ++ n ∷ [],
            back-pop_back c.lru {n = n} e
                ∙ ap (λ ns. ns ++ n ∷ []) p
                ∙ append_assoc (evict_loop fuel (evict_back n c)).lru dropped (n ∷ []),
          )
  ]
]

-- The node in front stays if it fits alone.
evict_loop-front :
    (fuel : ℕ) (c : MemoryCacheLru) (n : Node) (ns : List Node)
    → IsCoherent c
    → c.lru ≡ n ∷ ns
    → entry_bytes n.entry ≤ c.cap_bytes
    → (rest : List Node) × ((evict_loop fuel c).lru ≡ n ∷ rest)
unfolding evict_loop evict_back back pop_back
evict_loop-front zero c n ns h e l = (ns, e)
evict_loop-front (suc fuel) c n [] h e l =
    let t : total c.lru ≡ entry_bytes n.entry + 0 = ap total e in
    let under : ltb c.cap_bytes c.used_bytes ≡ false = ground (arith, h.used) in
    let b : back c.lru ≡ some n = ap back e in rw (b, evict_loop, under) ([], e)
evict_loop-front (suc fuel) c n (m ∷ ns) h e l = elim (Option-cases (back (m ∷ ns))) [
  | inl none_left ↦ absurd (cc (back-eq-none (m ∷ ns) none_left))
  | inr (x, last) ↦ elim (Bool-cases (ltb c.cap_bytes c.used_bytes)) [
    | inr under ↦
        let b : back c.lru ≡ some x = ap back e ∙ last in rw (b, evict_loop, under) (m ∷ ns, e)
    | inl over ↦
        let b : back c.lru ≡ some x = ap back e ∙ last in
        let (found, _) = back-node_of c.lru {n = x} h.apart b in
        let coherent : IsCoherent (evict_back x c) =
          subst IsCoherent (sym (evict_back-removed x c h b))
            (removed-IsCoherent x.key x c h found) in
        rw (b, evict_loop, over)
          (evict_loop-front fuel (evict_back x c) n (pop_back (m ∷ ns)) coherent (ap pop_back e) l)
  ]
]

emplaced_lru :
    (k : CacheKey) (e : CachedEntry) (c : MemoryCacheLru)
    → (emplace_front k e c).lru ≡ record { id = c.next_id; key = k; entry = e } ∷ c.lru
unfolding emplace_front
emplaced_lru k e c = refl

emplaced_cap :
    (k : CacheKey) (e : CachedEntry) (c : MemoryCacheLru)
    → (emplace_front k e c).cap_bytes ≡ c.cap_bytes
unfolding emplace_front
emplaced_cap k e c = refl

without_missing : (k : CacheKey) (ns : List Node) → node_of k ns ≡ none → without k ns ≡ ns
without_missing k [] h = refl
without_missing k (n ∷ ns) h = elim (Bool-cases (same n.key k)) [
  | inl b ↦ absurd (ground arith)
  | inr b ↦ rw b (ap (λ rest. n ∷ rest) (without_missing k ns (rw b at h)))
]

-- The list with the key in front, and then the first of the other nodes.
abbrev pub Recent : CacheKey → CachedEntry → List Node → List Node → Type 0
Recent k e before after =
    (n : Node) × (rest : List Node) × (dropped : List Node) × (n.key ≡ k)
    × (n.entry ≡ e)
    × (after ≡ n ∷ rest)
    × (without k before ≡ rest ++ dropped)

tail_of :
    {n m : Node} {xs : List Node} (ys zs : List Node) → n ∷ xs ≡ (m ∷ ys) ++ zs → xs ≡ ys ++ zs
tail_of ys zs e = cc

evicted :
    (k : CacheKey) (e : CachedEntry) (before : List Node) (c : MemoryCacheLru) (n : Node)
    → IsCoherent c
    → c.lru ≡ n ∷ without k before
    → entry_bytes n.entry ≤ c.cap_bytes
    → n.key ≡ k
    → n.entry ≡ e
    → Recent k e before (evict_if_needed c).lru
unfolding evict_if_needed
evicted k e before c n h l fits key entry =
    let (rest, front) = evict_loop-front (length c.lru) c n (without k before) h l fits in
    let (dropped, p) = evict_loop-suffix (length c.lru) c in
    (
      n,
      rest,
      dropped,
      key,
      entry,
      front,
      tail_of rest dropped (sym l ∙ p ∙ ap (λ ns. ns ++ dropped) front),
    )

-- Storing an entry that fits into the cache: it stands in front, as the one used last, and the other
-- entries behind it in the order that they had; what is evicted is taken from their end.
pub set-Recent :
    (k : CacheKey) (e : CachedEntry) (c : MemoryCacheLru)
    → IsWf c
    → entry_bytes e ≤ c.cap_bytes
    → Recent k e c.lru (set k e c).lru
unfolding set
set-Recent k e c h fits =
    let small : ltb c.cap_bytes (entry_bytes e) ≡ false = ground arith in
    elim (lookup_cases k c h.coherent) [
      | inl (missing, absent) ↦
          rw (small, missing, set)
            (evicted k e c.lru (emplace_front k e c) (record { id = c.next_id; key = k; entry = e })
              (emplace_front-IsCoherent k e c h.coherent missing
                (omega (arith, h.within, h.cap, h.coherent.used)))
              (emplaced_lru k e c
                ∙ ap (λ ns. record { id = c.next_id; key = k; entry = e } ∷ ns)
                    (sym (without_missing k c.lru absent)))
              (omega (arith, emplaced_cap k e c)) refl refl)
      | inr (n, at, found) ↦
          let n' : Node = record n { entry = e } in
          let t = total-without k c.lru {n = n} found in
          let u = removed_used k n c h.coherent found in
          let used = wrap_add (wrap_sub c.used_bytes (entry_bytes n.entry)) (entry_bytes e) in
          rw (small, at, set, replace-fronted k n e c h.coherent found)
            (evicted k e c.lru (fronted k n' used c) n'
              (fronted-IsCoherent k n e used c h.coherent found
                (ap (λ a. wrap_add a (entry_bytes e)) u
                  ∙ omega (arith, h.within, h.cap, h.coherent.used))
                (omega arith))
              refl fits (node_of_key k c.lru {n = n} found) refl)
    ]

-- An entry that fits into the cache is what `get` gives for its key.
pub get-set :
    (k : CacheKey) (e : CachedEntry) (c : MemoryCacheLru)
    → IsWf c
    → entry_bytes e ≤ c.cap_bytes
    → (get k (set k e c)).0 ≡ some e
get-set k e c h fits =
    let (n, rest, dropped, key, entry, front, _) = set-Recent k e c h fits in
    get-node_of k (set k e c) (set-IsWf k e c h).coherent
    ∙ ap (λ ns. entry_of (node_of k ns)) front
    ∙ ground (arith, same_iff n.key k)

-- An entry that is larger than the whole cache is not stored: the cache stays as it is.
pub set_large :
    (k : CacheKey) (e : CachedEntry) (c : MemoryCacheLru)
    → c.cap_bytes < entry_bytes e
    → set k e c ≡ c
unfolding set
set_large k e c l = rw (lt→ltb c.cap_bytes (entry_bytes e) l)
