-- ===== src/Database/Examples.antt =====
-- Tests of the pool and of a connection, and the theorems at concrete inputs.
use http.Prelude.{◌≡◌, refl, [], ◌∷◌, some}
use http.Std.Text.{codes}
use http.Database.{ok}
use http.Database.Small.{small}
use http.Database.Connection.{
  DbConnection, number, text, set_up, connected, new_connection, with_handle, bind_params,
  execute_update,
}
use http.Database.Pool.{
  not_initialized, new_pool, create_connections, init, init_failed, look, put_back,
}
use http.Database.Pool.Steps.{System, start, enter, initializes, enters, passes, Reach, here, next}
use http.Database.Pool.Steps.Invariant.{IsUnique, Reach-IsUnique, Reach-IsAwake, IsAwake}

pool_run : Unit {0}
unfolding create_connections init init_failed look put_back enter
pool_run = tt

-- One connection: the thread 7 has it, and the thread 8 waits.
abbrev filled : System
filled = record start { pool = init 1 new_pool }

abbrev used : System
used = record (enter 7 filled) { checking = []; leased = (7, 0) ∷ [] }

abbrev crowded : System
crowded = enter 8 used

filled-Reach : Reach start filled
filled-Reach = next here (initializes 1 refl)

used-Reach : Reach start used
unfolding pool_run
used-Reach = next (next filled-Reach (enters 7 refl)) (passes 7 0 [] [] refl refl)

crowded-Reach : Reach start crowded
crowded-Reach = next used-Reach (enters 8 refl)

filled_connections : filled.pool.connections ≡ 0 ∷ []
unfolding pool_run
filled_connections = refl

-- An init that fails behind two connections, and one that follows it.
retried_test : (init 3 (init_failed 2 new_pool)).connections ≡ 0 ∷ 1 ∷ 2 ∷ 3 ∷ 4 ∷ []
unfolding pool_run
retried_test = refl

not_initialized_test : look new_pool ≡ (not_initialized, new_pool)
unfolding pool_run
not_initialized_test = refl

Reach-IsUnique_example : IsUnique crowded
Reach-IsUnique_example = Reach-IsUnique crowded-Reach

Reach-IsAwake_example : IsAwake crowded
Reach-IsAwake_example = Reach-IsAwake crowded-Reach

abbrev idle : DbConnection (Unit {0})
idle = record {
  conn = some tt;
  host = codes "localhost";
  user = codes "root";
  password = [];
  database = codes "shortener";
}

new_connection_test :
    new_connection small (codes "localhost") (codes "root") [] (codes "shortener") 0 ≡ ok idle 0
unfolding set_up connected new_connection
new_connection_test = refl

execute_update_test :
    execute_update small idle
      (codes "DELETE FROM t WHERE a=? AND b=?")
      (number 7 ∷ text (codes "x") ∷ [])
      0
    ≡ ok 1 0
unfolding execute_update with_handle bind_params
execute_update_test = refl
