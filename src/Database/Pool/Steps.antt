-- ===== src/Database/Pool/Steps.antt =====
-- The threads around the pool, and the steps that they take in any order. The test of a connection
-- ends with a result or a std::exception, which is all that getConnection catches.
pub mod Counting
pub mod Invariant
pub mod Progress
use http.Prelude.{ℕ, ◌+◌, ◌<◌, ◌≡◌, Bool, true, false, List, [], ◌∷◌, ◌++◌}
use http.Database.Pool.{
  Pool, Found, taken, not_initialized, must_wait, new_pool, init, init_failed, look, put_back,
}

-- `waiting` are the threads in cv_.wait and `woken` those that come out of it and have not got the
-- lock yet. `checking` have taken a connection and test it outside the lock, `leased` have been
-- given one, and `to_check` is what the checking thread has copied and not tested yet.
pub record System : Type 0 where
  pub pool : Pool
  pub waiting : List ℕ
  pub woken : List ℕ
  pub checking : List (ℕ × ℕ)
  pub leased : List (ℕ × ℕ)
  pub to_check : List ℕ

abbrev pub start : System
start = record {
  pool = new_pool;
  waiting = [];
  woken = [];
  checking = [];
  leased = [];
  to_check = [];
}

-- One turn of the loop of getConnection, for the thread `who`.
unfoldable pub enter : ℕ → System → System
enter who s =
    let (found, p) = look s.pool in
    elim found [
      | taken c ↦ record s { pool = p; checking = (who, c) ∷ s.checking }
      | not_initialized ↦ record s { pool = p }
      | must_wait ↦ record s { pool = p; waiting = who ∷ s.waiting }
    ]

abbrev pub wake : ℕ → List ℕ → List ℕ → System → System
wake who xs ys s = record s { waiting = xs ++ ys; woken = who ∷ s.woken }

-- notify_one: one of the waiting threads, any of them, if there is one
pub data Notified (s t : System) : Type 0 where
  nobody : s.waiting ≡ [] → t ≡ s → Notified s t
  somebody :
      (who : ℕ) (xs ys : List ℕ) → s.waiting ≡ xs ++ who ∷ ys → t ≡ wake who xs ys s → Notified s t

abbrev pub unchecked : List (ℕ × ℕ) → List (ℕ × ℕ) → ℕ → System → System
unchecked xs ys c s = record s { pool = put_back c s.pool; checking = xs ++ ys }

abbrev pub given_back : List (ℕ × ℕ) → List (ℕ × ℕ) → ℕ → System → System
given_back xs ys c s = record s { pool = put_back c s.pool; leased = xs ++ ys }

pub data Step (s t : System) : Type 0 where
  -- init, and init with an exception
  initializes : (size : ℕ) → t ≡ record s { pool = init size s.pool } → Step s t
  initialize_fails : (made : ℕ) → t ≡ record s { pool = init_failed made s.pool } → Step s t
  -- getConnection, up to the end of the section under the lock, and again behind cv_.wait
  enters : (who : ℕ) → t ≡ enter who s → Step s t
  wakes_up :
      (who : ℕ) (xs ys : List ℕ) → s.waiting ≡ xs ++ who ∷ ys → t ≡ wake who xs ys s → Step s t
  enters_again :
      (who : ℕ) (xs ys : List ℕ)
      → s.woken ≡ xs ++ who ∷ ys
      → t ≡ enter who (record s { woken = xs ++ ys })
      → Step s t
  -- the test outside the lock, where ping or reconnect succeeds, and where reconnect throws
  passes :
      (who c : ℕ) (xs ys : List (ℕ × ℕ))
      → s.checking ≡ xs ++ (who, c) ∷ ys
      → t ≡ record s { checking = xs ++ ys; leased = (who, c) ∷ s.leased }
      → Step s t
  fails :
      (who c : ℕ) (xs ys : List (ℕ × ℕ))
      → s.checking ≡ xs ++ (who, c) ∷ ys
      → Notified (unchecked xs ys c s) t
      → Step s t
  -- the deleter of the pointer that getConnection has given
  gives_back :
      (who c : ℕ) (xs ys : List (ℕ × ℕ))
      → s.leased ≡ xs ++ (who, c) ∷ ys
      → Notified (given_back xs ys c s) t
      → Step s t
  -- checkConnections: the copy under the lock, and the test of one connection outside it
  copies : s.to_check ≡ [] → t ≡ record s { to_check = s.pool.connections } → Step s t
  tests : (c : ℕ) (cs : List ℕ) → s.to_check ≡ c ∷ cs → t ≡ record s { to_check = cs } → Step s t

pub data Reach (s : System) : System → Type 0 where
  here : Reach s s
  next : {t u : System} → Reach s t → Step t u → Reach s u
