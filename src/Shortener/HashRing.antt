-- ===== src/Shortener/HashRing.antt =====
-- HashRing.h: the consistent hashing of keys to shards. A std::map of 64-bit hashes is a list in their
-- order.
use http.Prelude.{
  ◌≡◌, ℕ, zero, suc, ◌+◌, ◌*◌, ◌%◌, ◌^◌, ◌<◌, ◌≤◌, List, [], ◌∷◌, ◌++◌, Option, none, some, arith,
  All, if◌then◌else◌, ltb, foldl, compare, Ordering, Bool-cases, Option-cases, inl, inr,
}
use http.Std.Text.{Text, codes}
use http.Std.Bits.{xor_bits}
use http.Std.Number.{to_string}

-- one byte of the FNV-1a hash
abbrev pub hash_byte : ℕ → ℕ → ℕ
hash_byte h c = xor_bits 64 h c * 1099511628211 % 2 ^ 64

-- h
unfoldable pub hash : Text → ℕ
hash s = foldl hash_byte 1469598103934665603 s

-- ring_[key] = shard
unfoldable pub assign_shard : ℕ → ℕ → List (ℕ × ℕ) → List (ℕ × ℕ)
assign_shard k v [] = (k, v) ∷ []
assign_shard k v ((j, w) ∷ m) =
    let rest = assign_shard k v m in
    elim (compare k j) [
      | Ordering.lt ↦ (k, v) ∷ (j, w) ∷ m
      | Ordering.eq ↦ (k, v) ∷ m
      | Ordering.gt ↦ (j, w) ∷ rest
    ]

abbrev pub node_name : ℕ → ℕ → Text
node_name s r = codes "node" ++ (to_string s ++ (codes "#" ++ to_string r))

-- the inner loop from replica `r` on, `n` times, and the outer one from shard `s` on
unfoldable pub build_shard : ℕ → ℕ → ℕ → List (ℕ × ℕ) → List (ℕ × ℕ)
build_shard s r zero ring = ring
build_shard s r (suc n) ring = build_shard s (r + 1) n (assign_shard (hash (node_name s r)) s ring)

unfoldable pub build_from : ℕ → ℕ → ℕ → List (ℕ × ℕ) → List (ℕ × ℕ)
build_from replicas s zero ring = ring
build_from replicas s (suc n) ring = build_from replicas (s + 1) n (build_shard s 0 replicas ring)

-- build, on any ring, which it clears
unfoldable pub build : ℕ → ℕ → List (ℕ × ℕ)
build replicas shards = build_from replicas 0 shards []

-- std::map::lower_bound
unfoldable pub lower_bound : ℕ → List (ℕ × ℕ) → Option ℕ
lower_bound k [] = none
lower_bound k ((j, w) ∷ m) = let rest = lower_bound k m in if ltb j k then rest else some w

unfoldable pub pick : Text → List (ℕ × ℕ) → ℕ
pick key [] = 0
pick key ((j, w) ∷ m) = elim (lower_bound (hash key) ((j, w) ∷ m)) [ none ↦ w | some v ↦ v ]

abbrev Below : ℕ → List (ℕ × ℕ) → Type 0
Below n = All (λ p. p.1 < n)

assign_shard-Below :
    (n k v : ℕ) (m : List (ℕ × ℕ)) → v < n → Below n m → Below n (assign_shard k v m)
unfolding assign_shard
assign_shard-Below n k v [] l h = (l, tt)
assign_shard-Below n k v ((j, w) ∷ m) l (a, h) =
    let ih = assign_shard-Below n k v m l h in ground (arith, ih)

build_shard-Below :
    (n s r i : ℕ) (ring : List (ℕ × ℕ)) → s < n → Below n ring → Below n (build_shard s r i ring)
unfolding build_shard
build_shard-Below n s r zero ring l h = h
build_shard-Below n s r (suc i) ring l h =
    build_shard-Below n s (r + 1) i _ l (assign_shard-Below n (hash (node_name s r)) s ring l h)

build_from-Below :
    (n replicas s i : ℕ) (ring : List (ℕ × ℕ))
    → s + i ≤ n
    → Below n ring
    → Below n (build_from replicas s i ring)
unfolding build_from
build_from-Below n replicas s zero ring l h = h
build_from-Below n replicas s (suc i) ring l h =
    build_from-Below n replicas (s + 1) i _ (omega arith)
      (build_shard-Below n s 0 replicas ring (omega arith) h)

lower_bound-Below :
    (n k : ℕ) (m : List (ℕ × ℕ)) {v : ℕ} → Below n m → lower_bound k m ≡ some v → v < n
unfolding lower_bound
lower_bound-Below n k [] h e = absurd (ground arith)
lower_bound-Below n k ((j, w) ∷ m) {v} (a, h) e = elim (Bool-cases (ltb j k)) [
  | inl b ↦ lower_bound-Below n k m h (rw b at e)
  | inr b ↦ ground arith
]

pick-Below : (n : ℕ) (key : Text) (ring : List (ℕ × ℕ)) → 0 < n → Below n ring → pick key ring < n
unfolding pick
pick-Below n key [] pos h = pos
pick-Below n key ((j, w) ∷ m) pos (a, h) =
    elim (Option-cases (lower_bound (hash key) ((j, w) ∷ m))) [
      | inl e ↦ rw (e, pick) a
      | inr (v, e) ↦ rw (e, pick) (lower_bound-Below n (hash key) ((j, w) ∷ m) (a, h) e)
    ]

-- A ring that is built for some shards picks one of them for every key, whatever the number of
-- replicas.
pub pick-build :
    (replicas shards : ℕ) (key : Text) → 0 < shards → pick key (build replicas shards) < shards
unfolding build
pick-build replicas shards key pos =
    pick-Below shards key (build_from replicas 0 shards []) pos
      (build_from-Below shards replicas 0 shards [] (omega arith) tt)
