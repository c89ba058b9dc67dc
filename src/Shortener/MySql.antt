-- ===== src/Shortener/MySql.antt =====
-- MySqlStore.h, over the connector of Database/Connection. `now` is time(nullptr).
pub mod Laws
mod Examples
use http.Prelude.{
  ℕ, ◌+◌, ◌<◌, Bool, true, false, List, [], ◌∷◌, ◌++◌, Option, none, some, if◌then◌else◌, ltb,
}
use http.Std.Text.{Text, codes}
use http.Std.Number.{is_positive}
use http.Database.{Attempt, ok, threw, fault, ◌>>=◌, give, catching}
use http.Database.Connection.{Connector, with_handle}

abbrev create_table_sql : Text
create_table_sql =
    codes "CREATE TABLE IF NOT EXISTS short_url("
    ++ (codes "id VARCHAR(32) PRIMARY KEY,"
        ++ (codes "long_url TEXT NOT NULL,"
            ++ (codes "created_at TIMESTAMP NOT NULL DEFAULT CURRENT_TIMESTAMP,"
                ++ codes "ttl_sec INT NULL)")))

abbrev pub select_sql : Text
select_sql = codes "SELECT long_url, ttl_sec, UNIX_TIMESTAMP(created_at) FROM short_url WHERE id=?"

abbrev pub insert_sql : Text
insert_sql = codes "INSERT INTO short_url(id,long_url,ttl_sec) VALUES(?,?,?)"

abbrev pub replace_sql : Text
replace_sql = codes "REPLACE INTO short_url(id,long_url,ttl_sec) VALUES(?,?,?)"

abbrev pub delete_sql : Text
delete_sql = codes "DELETE FROM short_url WHERE id=?"

-- A row with a time to live that has run out.
unfoldable pub is_over : ℕ → ℕ → ℕ → Bool
is_over ttl created now = if ltb 0 ttl then ltb (created + ttl) now else false

module _ {W : Type 0} (sql : Connector W) where
  open sql use {Handle, Statement, Results}

  -- init
  unfoldable pub init_table : Handle → W → Attempt W (Unit {0})
  init_table h = sql.prepare_statement h create_table_sql >>= λ stmt.
      sql.execute_prepared stmt >>= λ _. give tt

  -- the constructor; a null pointer is followed
  unfoldable pub new_mysql_store : Text → Text → Text → Text → W → Attempt W Handle
  new_mysql_store url user pass schema = sql.connect url user pass >>= λ conn.
      with_handle sql conn λ h. sql.set_schema h schema >>= λ _. init_table h >>= λ _. give h

  -- the columns of a row
  unfoldable pub read_ttl_column : Results → W → Attempt W ℕ
  read_ttl_column rs = sql.is_null rs 2 >>= λ absent. if absent then give 0 else sql.get_number rs 2

  unfoldable pub read_row : ℕ → Results → W → Attempt W (Option Text)
  read_row now rs = sql.get_string rs 1 >>= λ url. read_ttl_column rs >>= λ ttl.
      sql.get_number rs 3 >>= λ created. give (if is_over ttl created now then none else some url)

  unfoldable pub mysql_get : Handle → ℕ → Text → W → Attempt W (Option Text)
  mysql_get h now key = sql.prepare_statement h select_sql >>= λ stmt.
      sql.set_string stmt 1 key >>= λ _. sql.execute_prepared_query stmt >>= λ rs.
      sql.fetch rs >>= λ found. if found then read_row now rs else give none

  unfoldable pub bind_ttl : Statement → ℕ → W → Attempt W (Unit {0})
  bind_ttl stmt ttl = if is_positive ttl then sql.set_int stmt 3 ttl else sql.set_null stmt 3 0

  -- the statement of setNX or set, with its values
  unfoldable pub write_row : Text → Handle → Text → Text → ℕ → W → Attempt W (Unit {0})
  write_row query h key value ttl = sql.prepare_statement h query >>= λ stmt.
      sql.set_string stmt 1 key >>= λ _. sql.set_string stmt 2 value >>= λ _.
      bind_ttl stmt ttl >>= λ _. sql.execute_prepared stmt >>= λ _. give tt

  unfoldable pub mysql_set_nx : Handle → Text → Text → ℕ → W → Attempt W Bool
  mysql_set_nx h key value ttl =
      catching (write_row insert_sql h key value ttl >>= λ _. give true) (λ _. give false)

  unfoldable pub mysql_set : Handle → Text → Text → ℕ → W → Attempt W (Unit {0})
  mysql_set = write_row replace_sql

  unfoldable pub mysql_del : Handle → Text → W → Attempt W (Unit {0})
  mysql_del h key = sql.prepare_statement h delete_sql >>= λ stmt.
      sql.set_string stmt 1 key >>= λ _. sql.execute_prepared stmt >>= λ _. give tt
