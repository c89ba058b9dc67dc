-- ===== src/Database/Util.antt =====
-- MysqlUtil.h, on the connection that the pool gives; it is given back when the call ends.
use http.Prelude.{ℕ, List}
use http.Std.Text.{Text}
use http.Database.{Attempt, ok, threw, fault}
use http.Database.Connection.{
  Connector, DbConnection, Parameter, revive, execute_query, execute_update,
}

module _ {W A : Type 0} (sql : Connector W) where
  open sql use {Handle, Results}

  -- The call on a connection that getConnection has tested; where it throws, there is no call.
  unfoldable pub with_connection :
      (DbConnection Handle → W → Attempt W A)
      → DbConnection Handle
      → W
      → DbConnection Handle × Attempt W A
  with_connection f c w =
      let (c', o) = revive sql c w in
      elim o [ ok u w' ↦ (c', f c' w') | threw e w' ↦ (c', threw e w') | fault w' ↦ (c', fault w') ]

module _ {W : Type 0} (sql : Connector W) where
  open sql use {Handle, Results}

  abbrev pub util_query :
      Text → List Parameter → DbConnection Handle → W → DbConnection Handle × Attempt W Results
  util_query query args = with_connection sql (λ c. execute_query sql c query args)

  abbrev pub util_update :
      Text → List Parameter → DbConnection Handle → W → DbConnection Handle × Attempt W ℕ
  util_update query args = with_connection sql (λ c. execute_update sql c query args)
