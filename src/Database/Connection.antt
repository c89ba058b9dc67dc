-- ===== src/Database/Connection.antt =====
-- DbConnection.h and DbConnection.cpp. Each call of the connector may throw. A sql::SQLException
-- becomes a DbException with its text. Log lines are left out.
pub mod Laws
use http.Prelude.{
  ℕ, zero, suc, ◌+◌, Bool, true, false, List, [], ◌∷◌, Option, none, some, if◌then◌else◌,
}
use http.Std.Text.{Text, codes}
use http.Std.Number.{to_string}
use http.Database.{
  Attempt, sql_exception, runtime_error, other_exception, ok, threw, fault, ◌>>=◌, give, catching,
  caught, throw_db,
}

-- The calls of the MySQL connector that the program makes, on a world `W`.
pub record Connector (W : Type 0) : Type 1 where
  pub Handle : Type 0
  pub Statement : Type 0
  pub Results : Type 0
  -- driver->connect(host, user, password), `none` for a null pointer
  pub connect : Text → Text → Text → W → Attempt W (Option Handle)
  pub set_schema : Handle → Text → W → Attempt W (Unit {0})
  pub set_client_option : Handle → Text → Text → W → Attempt W (Unit {0})
  pub reconnect : Handle → W → Attempt W (Unit {0})
  pub get_auto_commit : Handle → W → Attempt W Bool
  pub set_auto_commit : Handle → Bool → W → Attempt W (Unit {0})
  pub rollback : Handle → W → Attempt W (Unit {0})
  pub create_statement : Handle → W → Attempt W Statement
  pub prepare_statement : Handle → Text → W → Attempt W Statement
  pub set_string : Statement → ℕ → Text → W → Attempt W (Unit {0})
  -- Statement::execute and executeQuery of a text, and those of a prepared statement
  pub execute : Statement → Text → W → Attempt W Bool
  pub execute_query : Statement → Text → W → Attempt W Results
  pub execute_prepared_query : Statement → W → Attempt W Results
  pub execute_prepared_update : Statement → W → Attempt W ℕ
  pub get_more_results : Statement → W → Attempt W Bool
  pub get_result_set : Statement → W → Attempt W (Option Results)
  pub execute_prepared : Statement → W → Attempt W Bool
  pub set_int : Statement → ℕ → ℕ → W → Attempt W (Unit {0})
  pub set_null : Statement → ℕ → ℕ → W → Attempt W (Unit {0})
  -- the next row, and the columns of a row; a number below 0 is read as 0
  pub fetch : Results → W → Attempt W Bool
  pub get_string : Results → ℕ → W → Attempt W Text
  pub is_null : Results → ℕ → W → Attempt W Bool
  pub get_number : Results → ℕ → W → Attempt W ℕ

pub record DbConnection (Handle : Type 0) : Type 0 where
  pub conn : Option Handle
  pub host : Text
  pub user : Text
  pub password : Text
  pub database : Text

-- An argument of executeQuery or executeUpdate: a number, bound as its text, or a text.
pub data Parameter : Type 0 where
  number : ℕ → Parameter
  text : Text → Parameter

abbrev pub parameter_text : Parameter → Text
parameter_text (number n) = to_string n
parameter_text (text s) = s

module _ {W : Type 0} (sql : Connector W) where
  open sql use {Handle, Statement, Results}

  -- what the constructor does with a connection that is there
  unfoldable pub set_up : Text → Handle → W → Attempt W (Option Handle)
  set_up database h = sql.set_schema h database >>= λ _.
      sql.set_client_option h (codes "OPT_RECONNECT") (codes "true") >>= λ _.
      sql.set_client_option h (codes "OPT_CONNECT_TIMEOUT") (codes "10") >>= λ _.
      sql.set_client_option h (codes "multi_statements") (codes "false") >>= λ _.
      sql.create_statement h >>= λ stmt.
      sql.execute stmt (codes "SET NAMES utf8mb4") >>= λ _. give (some h)

  unfoldable pub connected : Text → Option Handle → W → Attempt W (Option Handle)
  connected database none w = ok none w
  connected database (some h) w = set_up database h w

  -- DbConnection(host, user, password, database)
  unfoldable pub new_connection : Text → Text → Text → Text → W → Attempt W (DbConnection Handle)
  new_connection host user password database =
      catching (sql.connect host user password >>= connected database) throw_db >>= λ conn.
      give
        (record { conn = conn; host = host; user = user; password = password; database = database })

  -- `conn_->`, on a pointer that may be null
  unfoldable pub with_handle :
      {A : Type 0} → Option Handle → (Handle → W → Attempt W A) → W → Attempt W A
  with_handle none f w = fault w
  with_handle (some h) f w = f h w

  unfoldable pub ping : DbConnection Handle → W → Attempt W Bool
  ping c =
      catching
        (with_handle c.conn λ h. sql.create_statement h >>= λ stmt.
          sql.execute_query stmt (codes "SELECT 1") >>= λ _. give true)
        (λ _. give false)

  unfoldable pub is_valid : DbConnection Handle → W → Attempt W Bool
  is_valid c w = elim c.conn [
    | none ↦ ok false w
    | some h ↦
        catching
          (sql.create_statement h >>= λ stmt.
            sql.execute stmt (codes "SELECT 1") >>= λ _. give true)
          (λ _. give false) w
  ]

  -- the calls of reconnect; the connection is a changed one also where setSchema throws
  unfoldable pub try_reconnect :
      DbConnection Handle → W → DbConnection Handle × Attempt W (Unit {0})
  try_reconnect c w = elim c.conn [
    | some h ↦ (c, sql.reconnect h w)
    | none ↦ elim (sql.connect c.host c.user c.password w) [
      | ok conn w' ↦
          (record c { conn = conn }, with_handle conn (λ h. sql.set_schema h c.database) w')
      | threw e w' ↦ (c, threw e w')
      | fault w' ↦ (c, fault w')
    ]
  ]

  unfoldable pub reconnect : DbConnection Handle → W → DbConnection Handle × Attempt W (Unit {0})
  reconnect c w = let (c', o) = try_reconnect c w in (c', caught throw_db o)

  -- The two loops of cleanup, on fuel; the result says whether they have ended.
  unfoldable pub drain_rows : ℕ → Results → W → Attempt W Bool
  drain_rows zero rs = give false
  drain_rows (suc fuel) rs = sql.fetch rs >>= λ more. if more then drain_rows fuel rs else give true

  unfoldable pub drain : ℕ → Statement → W → Attempt W Bool
  drain zero stmt = give false
  drain (suc fuel) stmt = sql.get_more_results stmt >>= λ more.
      if more
      then (sql.get_result_set stmt >>= λ result. elim result [
        | none ↦ drain fuel stmt
        | some rs ↦ drain_rows fuel rs >>= λ ended. if ended then drain fuel stmt else give false
      ])
      else give true

  unfoldable pub end_transaction : Handle → W → Attempt W (Unit {0})
  end_transaction h = sql.get_auto_commit h >>= λ auto_commit.
      if auto_commit then give tt else (sql.rollback h >>= λ _. sql.set_auto_commit h true)

  -- catch (...) around the second reconnect
  abbrev pub ignored : Attempt W (Unit {0}) → Attempt W Bool
  ignored (ok u w) = ok true w
  ignored (threw e w) = ok true w
  ignored (fault w) = fault w

  abbrev pub cleaned : DbConnection Handle → Attempt W Bool → DbConnection Handle × Attempt W Bool
  cleaned c (ok b w) = (c, ok b w)
  cleaned c (threw (sql_exception e) w) = let (c', o) = reconnect c w in (c', ignored o)
  cleaned c (threw (runtime_error e) w) = let (c', o) = reconnect c w in (c', ignored o)
  cleaned c (threw other_exception w) = (c, threw other_exception w)
  cleaned c (fault w) = (c, fault w)

  unfoldable pub cleanup : ℕ → DbConnection Handle → W → DbConnection Handle × Attempt W Bool
  cleanup fuel c w = elim c.conn [
    | none ↦ (c, ok true w)
    | some h ↦
        cleaned c
          ((end_transaction h >>= λ _. sql.create_statement h >>= λ stmt. drain fuel stmt) w)
  ]

  -- ~DbConnection, which catches everything, and behind which there is no connection
  abbrev pub destroy_connection : ℕ → DbConnection Handle → W → Attempt W Bool
  destroy_connection fuel c w = elim (cleanup fuel c w).1 [
    | ok ended w' ↦ ok ended w'
    | threw e w' ↦ ok true w'
    | fault w' ↦ fault w'
  ]

  -- ping, and reconnect where it fails: the test outside the lock of the pool
  unfoldable pub revive : DbConnection Handle → W → DbConnection Handle × Attempt W (Unit {0})
  revive c w = elim (ping c w) [
    | ok true w' ↦ (c, ok tt w')
    | ok false w' ↦ reconnect c w'
    | threw e w' ↦ (c, threw e w')
    | fault w' ↦ (c, fault w')
  ]

  -- bindParams, from the given index on
  unfoldable pub bind_params : Statement → ℕ → List Parameter → W → Attempt W (Unit {0})
  bind_params stmt index [] = give tt
  bind_params stmt index (p ∷ ps) =
      sql.set_string stmt index (parameter_text p) >>= λ _. bind_params stmt (index + 1) ps

  unfoldable pub execute_query : DbConnection Handle → Text → List Parameter → W → Attempt W Results
  execute_query c query args =
      catching
        (with_handle c.conn λ h. sql.prepare_statement h query >>= λ stmt.
          bind_params stmt 1 args >>= λ _. sql.execute_prepared_query stmt)
        throw_db

  unfoldable pub execute_update : DbConnection Handle → Text → List Parameter → W → Attempt W ℕ
  execute_update c query args =
      catching
        (with_handle c.conn λ h. sql.prepare_statement h query >>= λ stmt.
          bind_params stmt 1 args >>= λ _. sql.execute_prepared_update stmt)
        throw_db
