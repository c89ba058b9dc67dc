-- ===== src/Database/Small.antt =====
-- A small connector, for the theorems at concrete inputs.
use http.Prelude.{ℕ, zero, suc, Bool, true, false, [], none, some}
use http.Std.Text.{codes}
use http.Database.{Attempt, sql_exception, ok, threw}
use http.Database.Connection.{Connector}

-- The world is the number of rows; a table with a row refuses another.
abbrev pub execute_small : ℕ → Attempt ℕ Bool
execute_small zero = ok false 1
execute_small (suc n) = threw (sql_exception (codes "Duplicate entry")) (suc n)

abbrev pub small : Connector ℕ
small = record {
  Handle = Unit {0};
  Statement = Unit {0};
  Results = Unit {0};
  connect = λ h u p w. ok (some tt) w;
  set_schema = λ h s w. ok tt w;
  set_client_option = λ h k v w. ok tt w;
  reconnect = λ h w. ok tt w;
  get_auto_commit = λ h w. ok true w;
  set_auto_commit = λ h b w. ok tt w;
  rollback = λ h w. ok tt w;
  create_statement = λ h w. ok tt w;
  prepare_statement = λ h q w. ok tt w;
  set_string = λ s i t w. ok tt w;
  execute = λ s q w. ok false w;
  execute_query = λ s q w. ok tt w;
  execute_prepared_query = λ s w. ok tt w;
  execute_prepared_update = λ s w. ok 1 w;
  execute_prepared = λ s w. execute_small w;
  set_int = λ s i n w. ok tt w;
  set_null = λ s i n w. ok tt w;
  fetch = λ r w. ok false w;
  get_string = λ r i w. ok [] w;
  is_null = λ r i w. ok true w;
  get_number = λ r i w. ok 0 w;
  get_more_results = λ s w. ok false w;
  get_result_set = λ s w. ok none w;
}
