-- ===== src/Database/Pool/Steps/Progress.antt =====
-- A thread that waits can always be served, and what the checking thread may do meanwhile.
use http.Prelude.{Bool, true, false, ℕ, ◌≡◌, refl, List, [], ◌∷◌, arith}
use http.Database.Pool.{Pool, look}
use http.Database.Pool.Steps.{
  System, enter, Step, enters, wakes_up, passes, copies, Reach, here, next,
}

enter_taken :
    (who c : ℕ) (cs : List ℕ) (s : System)
    → s.pool.connections ≡ c ∷ cs
    → record s { pool = record (s.pool) { connections = cs }; checking = (who, c) ∷ s.checking }
      ≡ enter who s
unfolding enter look
enter_taken who c cs s e = ground arith

-- A thread that comes out of cv_.wait without a notification.
abbrev pub is_spurious : {s t : System} → Step s t → Bool
is_spurious (wakes_up who xs ys w e) = true
is_spurious _ = false

-- Steps of which none is such a wakeup.
pub data Notifies (s : System) : System → Type 0 where
  stays : Notifies s s
  then : {t u : System} → Notifies s t → (x : Step t u) → is_spurious x ≡ false → Notifies s u

-- The checking thread tests its copy of the queue outside the lock: a thread may meanwhile have been
-- given the connection that is tested next.
pub tests_in_use :
    {s : System} (who c : ℕ) (cs : List ℕ)
    → s.pool.connections ≡ c ∷ cs
    → s.to_check ≡ []
    → (t : System) × Reach s t × (t.leased ≡ (who, c) ∷ s.leased) × (t.to_check ≡ c ∷ cs)
tests_in_use {s} who c cs e n =
    let s' : System = record s { to_check = s.pool.connections } in
    let u : System = record s' {
      pool = record (s.pool) { connections = cs };
      checking = (who, c) ∷ s.checking;
    } in
    let t : System = record u { checking = s.checking; leased = (who, c) ∷ s.leased } in
    (
      t,
      next (next (next here (copies n refl)) (enters who (enter_taken who c cs s' e)))
          (passes who c [] s.checking refl refl),
      refl,
      e,
    )
