-- ===== src/Database/Pool.antt =====
-- DbConnectionPool.h and DbConnectionPool.cpp: the queue of connections, the threads that wait for
-- one, and the thread that checks them. Each section under the lock is one step.
pub mod Steps
use http.Prelude.{ℕ, zero, suc, ◌+◌, Bool, true, false, List, [], ◌∷◌, ◌++◌, if◌then◌else◌}

-- The members that the lock guards. A connection is its number, and `next` one that none has yet.
pub record Pool : Type 0 where
  pub connections : List ℕ
  pub initialized : Bool
  pub next : ℕ

abbrev pub new_pool : Pool
new_pool = record { connections = []; initialized = false; next = 0 }

-- createConnection, `n` times
unfoldable pub create_connections : ℕ → Pool → Pool
create_connections zero p = p
create_connections (suc n) p =
    create_connections n
      (record p { connections = p.connections ++ p.next ∷ []; next = p.next + 1 })

-- init
unfoldable pub init : ℕ → Pool → Pool
init size p = if p.initialized then p else record (create_connections size p) { initialized = true }

-- init, where the connection behind the first `made` cannot be created and the exception leaves it
unfoldable pub init_failed : ℕ → Pool → Pool
init_failed made p = if p.initialized then p else create_connections made p

-- ~DbConnectionPool
abbrev pub destroy_pool : Pool → Pool
destroy_pool p = record p { connections = [] }

-- What a thread finds that looks at the queue under the lock: a connection, or a reason to throw, or
-- to wait.
pub data Found : Type 0 where
  taken : ℕ → Found
  not_initialized : Found
  must_wait : Found

unfoldable pub look : Pool → Found × Pool
look p = elim p.connections [
  | c ∷ cs ↦ (taken c, record p { connections = cs })
  | [] ↦ (if p.initialized then must_wait else not_initialized, p)
]

-- connections_.push
unfoldable pub put_back : ℕ → Pool → Pool
put_back c p = record p { connections = p.connections ++ c ∷ [] }
