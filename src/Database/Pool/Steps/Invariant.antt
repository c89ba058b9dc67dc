-- ===== src/Database/Pool/Steps/Invariant.antt =====
-- What every step keeps: each connection is in one place, and no wakeup is lost.
use http.Prelude.{
  ℕ, suc, ◌≤◌, ◌≡◌, ◌≢◌, ◌⊎◌, inl, inr, refl, sym, ap, ◌∙◌, subst, Bool, true, false, List, [], ◌∷◌,
  ◌++◌, arith, if◌then◌else◌, length, length-append, Bool-cases,
}
use http.Database.Pool.{Pool, create_connections, init, init_failed, look, put_back}
use http.Database.Pool.Steps.{
  System, start, enter, wake, Notified, nobody, somebody, unchecked, given_back, Step, initializes,
  initialize_fails, enters, wakes_up, enters_again, passes, fails, gives_back, copies, tests, Reach,
  here, next,
}
use http.Database.Pool.Steps.Counting.{
  count, held, count-append, held-append, owned, made, init_lem, init_failed_lem, made-init,
  made-init_failed,
}

-- Each connection that was made is in exactly one place, once, and no other is anywhere; and the
-- checking thread has copies of connections that were made, each once.
abbrev pub IsUnique : System → Type 0
IsUnique s = (c : ℕ) → (owned c s ≡ made c s.pool) × (count c s.to_check ≤ made c s.pool)

-- Nobody waits on a pool that is not initialized; and where somebody waits, as many threads are about
-- to look at the queue as there are connections in it.
pub record IsAwake (s : System) : Type 0 where
  pub quiet : s.pool.initialized ≡ false → (s.waiting ≡ []) × (s.woken ≡ [])
  pub enough : (s.waiting ≡ []) ⊎ (length s.pool.connections ≤ length s.woken)

enter-IsUnique : (who : ℕ) (s : System) → IsUnique s → IsUnique (enter who s)
unfolding enter look
enter-IsUnique who s h c = let (e, l) = h c in (ground arith, ground arith)

unchecked-IsUnique :
    (who d : ℕ) (xs ys : List (ℕ × ℕ)) (s : System)
    → s.checking ≡ xs ++ (who, d) ∷ ys
    → IsUnique s
    → IsUnique (unchecked xs ys d s)
unfolding put_back
unchecked-IsUnique who d xs ys s e h c =
    let a = ap (held c) e ∙ held-append c xs ((who, d) ∷ ys) in
    let (u, l) = h c in
    (omega (arith, u, a, held-append c xs ys, count-append c s.pool.connections (d ∷ [])), l)

given_back-IsUnique :
    (who d : ℕ) (xs ys : List (ℕ × ℕ)) (s : System)
    → s.leased ≡ xs ++ (who, d) ∷ ys
    → IsUnique s
    → IsUnique (given_back xs ys d s)
unfolding put_back
given_back-IsUnique who d xs ys s e h c =
    let a = ap (held c) e ∙ held-append c xs ((who, d) ∷ ys) in
    let (u, l) = h c in
    (omega (arith, u, a, held-append c xs ys, count-append c s.pool.connections (d ∷ [])), l)

Notified-IsUnique : {s t : System} → Notified s t → IsUnique s → IsUnique t
Notified-IsUnique {s} (nobody n e) h = subst IsUnique (sym e) h
Notified-IsUnique {s} (somebody who xs ys w e) h = subst IsUnique (sym e) h

passed-IsUnique :
    (who d : ℕ) (xs ys : List (ℕ × ℕ)) (s : System)
    → s.checking ≡ xs ++ (who, d) ∷ ys
    → IsUnique s
    → IsUnique (record s { checking = xs ++ ys; leased = (who, d) ∷ s.leased })
passed-IsUnique who d xs ys s e h c =
    let a = ap (held c) e ∙ held-append c xs ((who, d) ∷ ys) in
    let (u, l) = h c in (omega (arith, u, a, held-append c xs ys), l)

-- A copy of the queue, and that copy less its first connection.
copied-IsUnique : (s : System) → IsUnique s → IsUnique (record s { to_check = s.pool.connections })
copied-IsUnique s h c = let (u, l) = h c in (u, omega (arith, u))

tested-IsUnique :
    (d : ℕ) (cs : List ℕ) (s : System)
    → s.to_check ≡ d ∷ cs
    → IsUnique s
    → IsUnique (record s { to_check = cs })
tested-IsUnique d cs s e h c = let (u, l) = h c in (u, omega (arith, l, ap (count c) e))

Step-IsUnique : {s t : System} → Step s t → IsUnique s → IsUnique t
Step-IsUnique {s} (initializes n e) h = subst IsUnique (sym e) λ c.
    let (u, l) = h c in
    (omega (arith, u, init_lem n c s.pool), omega (arith, l, made-init n c s.pool))
Step-IsUnique {s} (initialize_fails n e) h = subst IsUnique (sym e) λ c.
    let (u, l) = h c in
    (omega (arith, u, init_failed_lem n c s.pool), omega (arith, l, made-init_failed n c s.pool))
Step-IsUnique {s} (enters who e) h = subst IsUnique (sym e) (enter-IsUnique who s h)
Step-IsUnique {s} (wakes_up who xs ys w e) h = subst IsUnique (sym e) h
Step-IsUnique {s} (enters_again who xs ys w e) h =
    subst IsUnique (sym e) (enter-IsUnique who (record s { woken = xs ++ ys }) h)
Step-IsUnique {s} (passes who d xs ys w e) h =
    subst IsUnique (sym e) (passed-IsUnique who d xs ys s w h)
Step-IsUnique {s} (fails who d xs ys w n) h =
    Notified-IsUnique n (unchecked-IsUnique who d xs ys s w h)
Step-IsUnique {s} (gives_back who d xs ys w n) h =
    Notified-IsUnique n (given_back-IsUnique who d xs ys s w h)
Step-IsUnique {s} (copies w e) h = subst IsUnique (sym e) (copied-IsUnique s h)
Step-IsUnique {s} (tests c cs w e) h = subst IsUnique (sym e) (tested-IsUnique c cs s w h)

start-IsUnique : IsUnique start
start-IsUnique c = (ground arith, ground arith)

-- However the threads take their steps, where the test of a connection throws nothing but
-- std::exceptions: every connection that was made stands exactly once in one of
-- three places, in the queue, with a thread that has taken it and tests it, or with one that has been
-- given it, so that none is lost and no two threads are given the same one. Beside these places, the
-- checking thread holds copies of the pointers, of connections that were made and each at most once;
-- these may be connections that other threads have been given.
pub Reach-IsUnique : {s : System} → Reach start s → IsUnique s
Reach-IsUnique here = start-IsUnique
Reach-IsUnique (next r x) = Step-IsUnique x (Reach-IsUnique r)

enter-IsAwake : (who : ℕ) (s : System) → IsAwake s → IsAwake (enter who s)
unfolding enter look
enter-IsAwake who s h = record { quiet = λ q. ground arith; enough = ground arith }

enter_initialized : (who : ℕ) (s : System) → (enter who s).pool.initialized ≡ s.pool.initialized
unfolding enter look
enter_initialized who s = ground arith

pub not_empty : (who : ℕ) (xs ys : List ℕ) → xs ++ who ∷ ys ≢ []
not_empty who [] ys e = cc
not_empty who (x ∷ xs) ys e = cc

-- Where a thread waits or was woken, the pool is initialized.
waited :
    (who : ℕ) (xs ys : List ℕ) (s : System)
    → IsAwake s
    → (s.waiting ≡ xs ++ who ∷ ys) ⊎ (s.woken ≡ xs ++ who ∷ ys)
    → s.pool.initialized ≢ false
waited who xs ys s h (inl w) q = not_empty who xs ys (sym w ∙ (h.quiet q).0)
waited who xs ys s h (inr w) q = not_empty who xs ys (sym w ∙ (h.quiet q).1)

again-IsAwake :
    (who : ℕ) (xs ys : List ℕ) (s : System)
    → s.woken ≡ xs ++ who ∷ ys
    → IsAwake s
    → IsAwake (enter who (record s { woken = xs ++ ys }))
unfolding enter look
again-IsAwake who xs ys s w h =
    let more = ap length w ∙ length-append xs (who ∷ ys) in
    let less = length-append xs ys in
    let same_pool = enter_initialized who (record s { woken = xs ++ ys }) in
    record {
      quiet = λ q. absurd (waited who xs ys s h (inr w) (sym same_pool ∙ q));
      enough = ground (arith, more, less);
    }

-- notify_one behind at most one push, from the state `s` on.
Notified-IsAwake :
    {s' t : System} (s : System)
    → s'.waiting ≡ s.waiting
    → s'.woken ≡ s.woken
    → s'.pool.initialized ≡ s.pool.initialized
    → length s'.pool.connections ≤ suc (length s.pool.connections)
    → IsAwake s
    → Notified s' t
    → IsAwake t
Notified-IsAwake s a b c l h (nobody n e) =
    subst IsAwake (sym e)
      (record { quiet = λ q. let (_, k) = h.quiet (sym c ∙ q) in (n, b ∙ k); enough = inl n })
Notified-IsAwake s a b c l h (somebody who xs ys w e) =
    let waits = sym a ∙ w in
    let enough : length s.pool.connections ≤ length s.woken = elim h.enough [
      | inl n ↦ absurd (not_empty who xs ys (sym waits ∙ n))
      | inr m ↦ m
    ] in
    let woken = ap length b in
    subst IsAwake (sym e) (record {
      quiet = λ q. absurd (waited who xs ys s h (inl waits) (sym c ∙ q));
      enough = inr (omega arith);
    })

-- A wakeup without a notification is one behind no push.
wake-IsAwake :
    (who : ℕ) (xs ys : List ℕ) (s : System)
    → s.waiting ≡ xs ++ who ∷ ys
    → IsAwake s
    → IsAwake (wake who xs ys s)
wake-IsAwake who xs ys s w h =
    Notified-IsAwake s refl refl refl (omega arith) h (somebody who xs ys w refl)

init-IsAwake : (n : ℕ) (s : System) → IsAwake s → IsAwake (record s { pool = init n s.pool })
unfolding init
init-IsAwake n s h =
    let fresh : Pool = record (create_connections n s.pool) { initialized = true } in
    let branch = λ (b : Bool). if b then s.pool else fresh in
    elim (Bool-cases s.pool.initialized) [
      | inl b ↦ subst (λ p. IsAwake (record s { pool = p })) (sym (ap branch b)) h
      | inr b ↦
          subst (λ p. IsAwake (record s { pool = p })) (sym (ap branch b))
            (record { quiet = λ q. absurd (cc q); enough = inl (h.quiet b).0 })
    ]

init_failed-IsAwake :
    (n : ℕ) (s : System) → IsAwake s → IsAwake (record s { pool = init_failed n s.pool })
unfolding init_failed
init_failed-IsAwake n s h =
    let fresh = create_connections n s.pool in
    let branch = λ (b : Bool). if b then s.pool else fresh in
    elim (Bool-cases s.pool.initialized) [
      | inl b ↦ subst (λ p. IsAwake (record s { pool = p })) (sym (ap branch b)) h
      | inr b ↦
          subst (λ p. IsAwake (record s { pool = p })) (sym (ap branch b))
            (record { quiet = λ q. h.quiet b; enough = inl (h.quiet b).0 })
    ]

length-put_back :
    (c : ℕ) (p : Pool) → length (put_back c p).connections ≤ suc (length p.connections)
unfolding put_back
length-put_back c p = omega (arith, length-append p.connections (c ∷ []))

put_back-initialized : (c : ℕ) (p : Pool) → (put_back c p).initialized ≡ p.initialized
unfolding put_back
put_back-initialized c p = refl

Step-IsAwake : {s t : System} → Step s t → IsAwake s → IsAwake t
Step-IsAwake {s} (initializes n e) h = subst IsAwake (sym e) (init-IsAwake n s h)
Step-IsAwake {s} (initialize_fails n e) h = subst IsAwake (sym e) (init_failed-IsAwake n s h)
Step-IsAwake {s} (enters who e) h = subst IsAwake (sym e) (enter-IsAwake who s h)
Step-IsAwake {s} (wakes_up who xs ys w e) h = subst IsAwake (sym e) (wake-IsAwake who xs ys s w h)
Step-IsAwake {s} (enters_again who xs ys w e) h =
    subst IsAwake (sym e) (again-IsAwake who xs ys s w h)
Step-IsAwake {s} (passes who d xs ys w e) h =
    subst IsAwake (sym e) (record { quiet = h.quiet; enough = h.enough })
Step-IsAwake {s} (fails who d xs ys w n) h =
    Notified-IsAwake s refl refl (put_back-initialized d s.pool) (length-put_back d s.pool) h n
Step-IsAwake {s} (gives_back who d xs ys w n) h =
    Notified-IsAwake s refl refl (put_back-initialized d s.pool) (length-put_back d s.pool) h n
Step-IsAwake {s} (copies w e) h =
    subst IsAwake (sym e) (record { quiet = h.quiet; enough = h.enough })
Step-IsAwake {s} (tests c cs w e) h =
    subst IsAwake (sym e) (record { quiet = h.quiet; enough = h.enough })

start-IsAwake : IsAwake start
start-IsAwake = record { quiet = λ q. (refl, refl); enough = inl refl }

-- However the threads take their steps: while a thread waits, at least as many threads have been
-- woken and will look at the queue as there are connections in it, so that no wakeup is lost; and
-- nobody waits on a pool that is not initialized.
pub Reach-IsAwake : {s : System} → Reach start s → IsAwake s
Reach-IsAwake here = start-IsAwake
Reach-IsAwake (next r x) = Step-IsAwake x (Reach-IsAwake r)
