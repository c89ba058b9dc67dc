-- ===== src/Database/Pool/Steps/Counting.antt =====
-- How often a connection stands in a list, and in the whole system.
use http.Prelude.{
  ℕ, zero, suc, ◌+◌, ◌≤◌, ◌≡◌, refl, List, [], ◌∷◌, ◌++◌, arith, if◌then◌else◌, ◌==◌, ltb,
}
use http.Database.Pool.{Pool, create_connections, init, init_failed}
use http.Database.Pool.Steps.{System}

abbrev pub count : ℕ → List ℕ → ℕ
count c [] = 0
count c (x ∷ xs) = (if x == c then 1 else 0) + count c xs

abbrev pub held : ℕ → List (ℕ × ℕ) → ℕ
held c [] = 0
held c (x ∷ xs) = (if x.1 == c then 1 else 0) + held c xs

pub count-append : (c : ℕ) (xs ys : List ℕ) → count c (xs ++ ys) ≡ count c xs + count c ys
count-append c [] ys = omega arith
count-append c (x ∷ xs) ys = omega (arith, count-append c xs ys)

pub held-append : (c : ℕ) (xs ys : List (ℕ × ℕ)) → held c (xs ++ ys) ≡ held c xs + held c ys
held-append c [] ys = omega arith
held-append c (x ∷ xs) ys = omega (arith, held-append c xs ys)

-- In the queue, with a thread that has taken it and tests it, or with one that uses it. What the
-- checking thread has copied is counted apart: those are more pointers to the same connections.
abbrev pub owned : ℕ → System → ℕ
owned c s = count c s.pool.connections + held c s.checking + held c s.leased

-- 1 for the connections that have been made.
abbrev pub made : ℕ → Pool → ℕ
made c p = if ltb c p.next then 1 else 0

pub create_connections_lem :
    (n c : ℕ) (p : Pool)
    → count c (create_connections n p).connections + made c p
      ≡ count c p.connections + made c (create_connections n p)
unfolding create_connections
create_connections_lem zero c p = omega arith
create_connections_lem (suc n) c p =
    let p' : Pool = record p { connections = p.connections ++ p.next ∷ []; next = p.next + 1 } in
    ground (arith, create_connections_lem n c p', count-append c p.connections (p.next ∷ []))

pub init_lem :
    (n c : ℕ) (p : Pool)
    → count c (init n p).connections + made c p ≡ count c p.connections + made c (init n p)
unfolding init
init_lem n c p = ground (arith, create_connections_lem n c p)

pub init_failed_lem :
    (n c : ℕ) (p : Pool)
    → count c (init_failed n p).connections + made c p
      ≡ count c p.connections + made c (init_failed n p)
unfolding init_failed
init_failed_lem n c p = ground (arith, create_connections_lem n c p)

pub create_connections-initialized :
    (n : ℕ) (p : Pool) → (create_connections n p).initialized ≡ p.initialized
unfolding create_connections
create_connections-initialized zero p = refl
create_connections-initialized (suc n) p = create_connections-initialized n _

pub create_connections-next : (n : ℕ) (p : Pool) → p.next ≤ (create_connections n p).next
unfolding create_connections
create_connections-next zero p = omega arith
create_connections-next (suc n) p =
    let p' : Pool = record p { connections = p.connections ++ p.next ∷ []; next = p.next + 1 } in
    omega (arith, create_connections-next n p')

pub made-init : (n c : ℕ) (p : Pool) → made c p ≤ made c (init n p)
unfolding init
made-init n c p = ground (arith, create_connections-next n p)

pub made-init_failed : (n c : ℕ) (p : Pool) → made c p ≤ made c (init_failed n p)
unfolding init_failed
made-init_failed n c p = ground (arith, create_connections-next n p)
