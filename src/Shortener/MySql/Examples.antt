-- ===== src/Shortener/MySql/Examples.antt =====
-- Tests of the store in MySQL.
use http.Prelude.{◌≡◌, refl, true, false}
use http.Std.Text.{codes}
use http.Database.{ok}
use http.Database.Connection.{with_handle}
use http.Database.Small.{small}
use http.Shortener.MySql.{init_table, new_mysql_store, bind_ttl, write_row, mysql_set_nx, is_over}

new_mysql_store_test :
    new_mysql_store small
      (codes "tcp://127.0.0.1:3306")
      (codes "root")
      (codes "x")
      (codes "shortener")
      0
    ≡ ok tt 1
unfolding new_mysql_store with_handle init_table
new_mysql_store_test = refl

mysql_set_nx_test : mysql_set_nx small tt (codes "a") (codes "u") 60 0 ≡ ok true 1
unfolding mysql_set_nx write_row bind_ttl
mysql_set_nx_test = refl

taken_test : mysql_set_nx small tt (codes "a") (codes "u") 60 3 ≡ ok false 3
unfolding mysql_set_nx write_row bind_ttl
taken_test = refl

is_over_test : is_over 60 1000 1061 ≡ true
unfolding is_over
is_over_test = refl
