-- ===== src/Shortener/Store/Laws.antt =====
-- What the handlers rely on of a store, that the one in memory keeps it, and what the two-level one
-- does over two stores that keep it. RedisStore keeps it only for times to live above 0.
use native.Mathlib.Omega.{mod_fact}
use http.Prelude.{
  subst, ℕ, zero, suc, ◌<◌, ◌≡◌, refl, sym, ap, ◌∙◌, true, false, not, List, [], ◌∷◌, Option, none,
  some, is_some, arith, same, same_iff, text_eq, if◌then◌else◌, length, Option-cases, Bool-cases,
  inl, inr,
}
use http.Std.Text.{Text}
use http.Std.Map.{lookup-insert}
use http.Shortener.Store.{
  Store, shard_get, shard_set, shard_of, memory_store, aside_get, aside_set_nx,
}

-- What the handlers rely on of a store that one thread calls at a time, against what a key reads as,
-- no time to live running out meanwhile. `del` is only held to leave the other keys as they are.
pub record StoreLaws {S : Type 0} (store : Store S) (IsOk : S → Type 0)
    (read : Text → S → Option Text) : Type 0 where
  pub get_lem : (k : Text) (s : S) → IsOk s → (store.get k s).0 ≡ read k s
  pub get-read : (k j : Text) (s : S) → IsOk s → read j (store.get k s).1 ≡ read j s
  pub get-IsOk : (k : Text) (s : S) → IsOk s → IsOk (store.get k s).1
  pub set_nx_lem :
      (k v : Text) (ttl : ℕ) (s : S)
      → IsOk s
      → (store.set_nx k v ttl s).0 ≡ not (is_some (read k s))
  pub set_nx-read :
      (k v : Text) (ttl : ℕ) (j : Text) (s : S)
      → IsOk s
      → read j (store.set_nx k v ttl s).1
        ≡ (if same k j then (if is_some (read k s) then read k s else some v) else read j s)
  pub set_nx-IsOk : (k v : Text) (ttl : ℕ) (s : S) → IsOk s → IsOk (store.set_nx k v ttl s).1
  pub set-read :
      (k v : Text) (ttl : ℕ) (j : Text) (s : S)
      → IsOk s
      → read j (store.set k v ttl s) ≡ (if same k j then some v else read j s)
  pub set-IsOk : (k v : Text) (ttl : ℕ) (s : S) → IsOk s → IsOk (store.set k v ttl s)
  pub del-read_ne :
      (k j : Text) (s : S) → IsOk s → same k j ≡ false → read j (store.del k s) ≡ read j s
  pub del-IsOk : (k : Text) (s : S) → IsOk s → IsOk (store.del k s)

shard_get-shard_set :
    (i : ℕ) (k v j : Text) (ms : List (List (Text × Text)))
    → i < length ms
    → shard_get i j (shard_set i k v ms) ≡ (if same k j then some v else shard_get i j ms)
unfolding shard_get shard_set
shard_get-shard_set i k v j [] h = absurd (omega arith)
shard_get-shard_set zero k v j (m ∷ ms) h = lookup-insert k j v m
shard_get-shard_set (suc i) k v j (m ∷ ms) h = shard_get-shard_set i k v j ms (omega arith)

shard_other :
    (i l : ℕ) (k v j : Text) (ms : List (List (Text × Text)))
    → same k j ≡ false
    → shard_get l j (shard_set i k v ms) ≡ shard_get l j ms
unfolding shard_get shard_set
shard_other i l k v j [] h = refl
shard_other zero zero k v j (m ∷ ms) h = lookup-insert k j v m ∙ (rw h)
shard_other zero (suc l) k v j (m ∷ ms) h = refl
shard_other (suc i) zero k v j (m ∷ ms) h = refl
shard_other (suc i) (suc l) k v j (m ∷ ms) h = shard_other i l k v j ms h

length-shard_set :
    (i : ℕ) (k v : Text) (ms : List (List (Text × Text))) → length (shard_set i k v ms) ≡ length ms
unfolding shard_set
length-shard_set i k v [] = refl
length-shard_set zero k v (m ∷ ms) = refl
length-shard_set (suc i) k v (m ∷ ms) = ap suc (length-shard_set i k v ms)

shard_of_lt : (shards : ℕ) (key : Text) → 0 < shards → shard_of shards key < shards
unfolding shard_of
shard_of_lt shards [] h = h
shard_of_lt zero (c ∷ key) h = absurd (omega arith)
shard_of_lt (suc n) (c ∷ key) h = mod_fact c n

abbrev pub HasShards : ℕ → List (List (Text × Text)) → Type 0
HasShards shards kv = length kv ≡ shards

abbrev pub read_shards : ℕ → Text → List (List (Text × Text)) → Option Text
read_shards shards key kv = shard_get (shard_of shards key) key kv

set_read :
    (shards : ℕ) (k v j : Text) (kv : List (List (Text × Text)))
    → 0 < shards
    → HasShards shards kv
    → read_shards shards j (shard_set (shard_of shards k) k v kv)
      ≡ (if same k j then some v else read_shards shards j kv)
set_read shards k v j kv pos h = elim (Bool-cases (same k j)) [
  | inr b ↦ rw b (shard_other (shard_of shards k) (shard_of shards j) k v j kv b)
  | inl b ↦
      let e : k ≡ j = (same_iff k j).0 b in
      subst
        (λ x.
          read_shards shards x (shard_set (shard_of shards k) k v kv)
          ≡ (if same k x then some v else read_shards shards x kv))
        e
        (shard_get-shard_set (shard_of shards k) k v k kv (omega (arith, shard_of_lt shards k pos)))
]

-- The store in memory, with one shard or more and called by one thread at a time, is one map of all
-- its shards: get reads it, setNX tests it and sets what is not there, and set sets. Of del it is only
-- said that the other keys stay.
pub memory_store_lem :
    (shards : ℕ)
    → 0 < shards
    → StoreLaws (memory_store shards) (HasShards shards) (read_shards shards)
memory_store_lem shards pos = record {
  get_lem = λ k s h. refl;
  get-read = λ k j s h. refl;
  get-IsOk = λ k s h. h;
  set_nx_lem = λ k v ttl s h. ground arith;
  set_nx-read = λ k v ttl j s h. elim (Option-cases (read_shards shards k s)) [
    | inl e ↦ ground (arith, set_read shards k v j s pos h)
    | inr (x, e) ↦ ground (arith, same_iff k j)
  ];
  set_nx-IsOk = λ k v ttl s h. elim (Option-cases (read_shards shards k s)) [
    | inl e ↦ ground (arith, length-shard_set (shard_of shards k) k v s)
    | inr (x, e) ↦ ground arith
  ];
  set-read = λ k v ttl j s h. set_read shards k v j s pos h;
  set-IsOk = λ k v ttl s h. length-shard_set (shard_of shards k) k v s ∙ h;
  del-read_ne = λ k j s h d. refl;
  del-IsOk = λ k s h. h;
}

-- Redis holds nothing but what MySQL holds.
abbrev pub Agrees :
    {R M : Type 0} (read : Text → R → Option Text) (read' : Text → M → Option Text) → R × M → Type 0
Agrees read read' (r, m) = (k v : Text) → read k r ≡ some v → read' k m ≡ some v

module _ {R M : Type 0} (redis : Store R) (mysql : Store M) (backfill : ℕ) (IsOkR : R → Type 0)
    (read : Text → R → Option Text) (IsOkM : M → Type 0) (read' : Text → M → Option Text)
    (rl : StoreLaws redis IsOkR read) (ml : StoreLaws mysql IsOkM read') where
  -- Over two stores that keep the laws: a read through the first gives what the second holds, and the
  -- two agree afterwards.
  pub aside_get-read :
      (k : Text) (r : R) (m : M)
      → IsOkR r
      → IsOkM m
      → Agrees read read' (r, m)
      → ((aside_get redis mysql backfill k (r, m)).0 ≡ read' k m)
        × Agrees read read' (aside_get redis mysql backfill k (r, m)).1
  unfolding aside_get
  aside_get-read k r m a b h = elim (Option-cases (read k r)) [
    | inr (v, e) ↦
        let hit : (redis.get k r).0 ≡ some v = rl.get_lem k r a ∙ e in
        rw (hit, aside_get) (sym (h k v e), λ j w q. h j w (sym (rl.get-read k j r a) ∙ q))
    | inl e ↦
        let miss : (redis.get k r).0 ≡ none = rl.get_lem k r a ∙ e in
        let ok = rl.get-IsOk k r a in
        elim (Option-cases (read' k m)) [
          | inl e' ↦
              let none_kept : (mysql.get k m).0 ≡ none = ml.get_lem k m b ∙ e' in
              rw (miss, aside_get, none_kept)
                (sym e', λ j w q. ml.get-read k j m b ∙ h j w (sym (rl.get-read k j r a) ∙ q))
          | inr (v, e') ↦
              let kept : (mysql.get k m).0 ≡ some v = ml.get_lem k m b ∙ e' in
              rw (miss, aside_get, kept)
                (
                  sym e',
                  λ j w q.
                      ml.get-read k j m b
                      ∙ copied k j v w r m a b h e'
                          (sym (rl.set-read k v backfill j (redis.get k r).1 ok) ∙ q),
                )
        ]
  ]
    where
      copied :
          (k j v w : Text) (r : R) (m : M)
          → IsOkR r
          → IsOkM m
          → Agrees read read' (r, m)
          → read' k m ≡ some v
          → (if same k j then some v else read j (redis.get k r).1) ≡ some w
          → read' j m ≡ some w
      copied k j v w r m a b h e' q = elim (Bool-cases (same k j)) [
        | inl s ↦
            let kj : k ≡ j = (same_iff k j).0 s in
            subst (λ x. read' x m ≡ some w) kj (e' ∙ (rw s at q))
        | inr s ↦ h j w (sym (rl.get-read k j r a) ∙ (rw s at q))
      ]

  -- Over two stores that keep the laws: writing a new link succeeds exactly when the second does not
  -- have its key, and the two agree afterwards.
  pub aside_set_nx-read :
      (k v : Text) (ttl : ℕ) (r : R) (m : M)
      → IsOkR r
      → IsOkM m
      → Agrees read read' (r, m)
      → ((aside_set_nx redis mysql backfill k v ttl (r, m)).0 ≡ not (is_some (read' k m)))
        × Agrees read read' (aside_set_nx redis mysql backfill k v ttl (r, m)).1
  unfolding aside_set_nx
  aside_set_nx-read k v ttl r m a b h = elim (Option-cases (read' k m)) [
    | inr (x, e) ↦
        let no : (mysql.set_nx k v ttl m).0 ≡ false = ml.set_nx_lem k v ttl m b ∙ (rw e) in
        rw (no, e) (refl, λ j w q. ml.set_nx-read k v ttl j m b ∙ stays k j x v w r m h e q)
    | inl e ↦
        let yes : (mysql.set_nx k v ttl m).0 ≡ true = ml.set_nx_lem k v ttl m b ∙ (rw e) in
        rw (yes, e)
          (
            refl,
            λ j w q.
                ml.set_nx-read k v ttl j m b
                ∙ written k j v w r m h e (sym (rl.set-read k v ttl j r a) ∙ q),
          )
  ]
    where
      stays :
          (k j x v w : Text) (r : R) (m : M)
          → Agrees read read' (r, m)
          → read' k m ≡ some x
          → read j r ≡ some w
          → (if same k j then (if is_some (read' k m) then read' k m else some v) else read' j m)
            ≡ some w
      stays k j x v w r m h e q = elim (Bool-cases (same k j)) [
        | inl s ↦
            let kj : k ≡ j = (same_iff k j).0 s in
            rw (s, e) (sym e ∙ ap (λ y. read' y m) kj ∙ h j w q)
        | inr s ↦ rw s (h j w q)
      ]

      written :
          (k j v w : Text) (r : R) (m : M)
          → Agrees read read' (r, m)
          → read' k m ≡ none
          → (if same k j then some v else read j r) ≡ some w
          → (if same k j then (if is_some (read' k m) then read' k m else some v) else read' j m)
            ≡ some w
      written k j v w r m h e q = elim (Bool-cases (same k j)) [
        | inl s ↦ rw (s, e) (rw s at q)
        | inr s ↦ rw s (h j w (rw s at q))
      ]
