-- ===== src/HttpCache/Memory/Nodes.antt =====
-- Lists of nodes with different numbers and different keys: what stands at an iterator is what
-- stands at its key.
use mathlib.Core.Option
use http.Prelude.{
  of_some, subst, ℕ, ◌+◌, ◌≡◌, ◌≢◌, refl, ap, true, false, List, [], ◌∷◌, Option, none, some, arith,
  same, same_iff, All, if◌then◌else◌, ◌==◌, Bool-cases, inl, inr,
}
use http.HttpCache.{CacheKey, cache_key_eq, entry_bytes}
use http.HttpCache.Memory.{Node, node_at, erase_at, back, pop_back}

abbrev pub Apart : Node → Node → Type 0
Apart n m = (n.id ≢ m.id) × (same n.key m.key ≡ false)

abbrev pub AllApart : List Node → Type 0
AllApart [] = Unit
AllApart (n ∷ ns) = All (Apart n) ns × AllApart ns

-- the node with a key, and the list without it
abbrev pub node_of : CacheKey → List Node → Option Node
node_of k [] = none
node_of k (n ∷ ns) = if same n.key k then some n else node_of k ns

abbrev pub without : CacheKey → List Node → List Node
without k [] = []
without k (n ∷ ns) = if same n.key k then ns else n ∷ without k ns

abbrev pub id_of : CacheKey → List Node → Option ℕ
id_of k ns = Option.map (λ n. n.id) (node_of k ns)

-- the bytes of all entries
abbrev pub total : List Node → ℕ
total [] = 0
total (n ∷ ns) = entry_bytes n.entry + total ns

pub All-without :
    (P : Node → Type 0) (k : CacheKey) (ns : List Node) → All P ns → All P (without k ns)
All-without P k [] h = h
All-without P k (n ∷ ns) (p, h) = elim (Bool-cases (same n.key k)) [
  | inl e ↦ rw e h
  | inr e ↦ rw e (p, All-without P k ns h)
]

pub without-AllApart : (k : CacheKey) (ns : List Node) → AllApart ns → AllApart (without k ns)
without-AllApart k [] h = h
without-AllApart k (n ∷ ns) (p, h) = elim (Bool-cases (same n.key k)) [
  | inl e ↦ rw e h
  | inr e ↦ rw e (All-without (Apart n) k ns p, without-AllApart k ns h)
]

-- A key that a node apart from all others has, no other has.
pub node_of_single : (n : Node) (ns : List Node) → All (Apart n) ns → node_of n.key ns ≡ none
node_of_single n [] h = refl
node_of_single n (m ∷ ns) ((_, k), h) =
    let e : same m.key n.key ≡ false = ground (arith, same_iff m.key n.key, same_iff n.key m.key) in
    rw e (node_of_single n ns h)

pub node_of-without :
    (k j : CacheKey) (ns : List Node)
    → AllApart ns
    → node_of j (without k ns) ≡ (if same k j then none else node_of j ns)
node_of-without k j [] h = ground arith
node_of-without k j (n ∷ ns) (p, h) = ground (
  arith,
  same_iff k j,
  same_iff n.key k,
  same_iff n.key j,
  node_of_single n ns p,
  node_of-without k j ns h,
)

pub total-without :
    (k : CacheKey) (ns : List Node) {n : Node}
    → node_of k ns ≡ some n
    → total ns ≡ entry_bytes n.entry + total (without k ns)
total-without k [] h = absurd (ground arith)
total-without k (m ∷ ns) {n} h = elim (Bool-cases (same m.key k)) [
  | inl e ↦ ground arith
  | inr e ↦ let ih = total-without k ns {n = n} in ground (arith, ih)
]

-- The node found has the key.
pub node_of_key : (k : CacheKey) (ns : List Node) {n : Node} → node_of k ns ≡ some n → n.key ≡ k
node_of_key k [] h = absurd (ground arith)
node_of_key k (m ∷ ns) {n} h = elim (Bool-cases (same m.key k)) [
  | inl e ↦ ground (arith, same_iff m.key k)
  | inr e ↦ ground (arith, node_of_key k ns {n = n})
]

pub node_of_All :
    (P : Node → Type 0) (k : CacheKey) (ns : List Node) {n : Node}
    → All P ns
    → node_of k ns ≡ some n
    → P n
node_of_All P k [] a h = absurd (ground arith)
node_of_All P k (m ∷ ns) {n} (p, a) h = elim (Bool-cases (same m.key k)) [
  | inl e ↦ let e' : m ≡ n = ground arith in subst P e' p
  | inr e ↦ node_of_All P k ns a (rw e at h)
]

-- The node with the key has the number that the key leads to.
pub node_of_id :
    (k : CacheKey) (ns : List Node) {i : ℕ}
    → id_of k ns ≡ some i
    → (n : Node) × (node_of k ns ≡ some n) × (n.id ≡ i)
node_of_id k ns {i} h = of_map (node_of k ns) h
  where
    of_map :
        (o : Option Node)
        → Option.map (λ n. n.id) o ≡ some i
        → (n : Node) × (o ≡ some n) × (n.id ≡ i)
    of_map none h = cc
    of_map (some n) h = (n, refl, of_some h)

other_id :
    (n : Node) (ns : List Node) {m : Node}
    → All (Apart n) ns
    → (k : CacheKey) → node_of k ns ≡ some m
    → (n.id == m.id) ≡ false
other_id n ns {m} a k h = let (d, _) = node_of_All (Apart n) k ns {n = m} a h in ground arith

pub node_at-node_of :
    (k : CacheKey) (ns : List Node) {n : Node}
    → AllApart ns
    → node_of k ns ≡ some n
    → node_at n.id ns ≡ some n
unfolding node_at
node_at-node_of k [] a h = absurd (ground arith)
node_at-node_of k (m ∷ ns) {n} (p, a) h = elim (Bool-cases (same m.key k)) [
  | inl e ↦ let e' : m ≡ n = ground arith in ground arith
  | inr e ↦
      let h' : node_of k ns ≡ some n = rw e at h in
      rw (other_id m ns {m = n} p k h') (node_at-node_of k ns a h')
]

pub erase_at-without :
    (k : CacheKey) (ns : List Node) {n : Node}
    → AllApart ns
    → node_of k ns ≡ some n
    → erase_at n.id ns ≡ without k ns
unfolding erase_at
erase_at-without k [] a h = absurd (ground arith)
erase_at-without k (m ∷ ns) {n} (p, a) h = elim (Bool-cases (same m.key k)) [
  | inl e ↦ let e' : m ≡ n = ground arith in ground arith
  | inr e ↦
      let h' : node_of k ns ≡ some n = rw e at h in
      rw (other_id m ns {m = n} p k h', e) (ap (λ rest. m ∷ rest) (erase_at-without k ns a h'))
]

-- The last node is the one that its key leads to, and popping it is removing its key.
pub back-node_of :
    (ns : List Node) {n : Node}
    → AllApart ns
    → back ns ≡ some n
    → (node_of n.key ns ≡ some n) × (pop_back ns ≡ without n.key ns)
unfolding back pop_back
back-node_of [] a h = absurd (ground arith)
back-node_of (m ∷ []) {n} a h =
    let e : m ≡ n = of_some h in
    let r : same m.key n.key ≡ true = ground (arith, same_iff m.key n.key) in (rw r h, rw r)
back-node_of (m ∷ l ∷ ns) {n} (p, a) h =
    let (b, c) = back-node_of (l ∷ ns) {n = n} a h in
    let (_, d) = node_of_All (Apart m) n.key (l ∷ ns) {n = n} p b in
    (rw d b, rw d (ap (λ rest. m ∷ rest) c))

pub back-eq-none : (ns : List Node) → back ns ≡ none → ns ≡ []
unfolding back
back-eq-none [] h = refl
back-eq-none (n ∷ []) h = absurd (ground arith)
back-eq-none (n ∷ m ∷ ns) h = absurd (cc (back-eq-none (m ∷ ns) h))
