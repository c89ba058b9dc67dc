-- ===== src/Database/Connection/Laws.antt =====
-- What leaves the test of a connection and its cleaning up where the connector fails.
use http.Prelude.{inr, inl, Option-cases, ◌≢◌, ℕ, Bool, false}
use http.Std.Text.{Text}
use http.Database.{
  Attempt, sql_exception, runtime_error, other_exception, ok, threw, fault, give, caught,
}
use http.Database.Connection.{
  cleanup, cleaned, ignored, Connector, DbConnection, ping, reconnect, is_valid,
}

caught_by_value :
    {W A : Type 0} (a : A) (o : Attempt W A) (e : Text) (w : W)
    → caught (λ _. give a) o ≢ threw (sql_exception e) w
caught_by_value a (ok b w') e w t = cc t
caught_by_value a (threw (sql_exception d) w') e w t = cc t
caught_by_value a (threw (runtime_error d) w') e w t = cc t
caught_by_value a (threw other_exception w') e w t = cc t
caught_by_value a (fault w') e w t = cc t

ignored_caught :
    {W : Type 0} (sql : Connector W) (o : Attempt W (Unit {0})) (e : Text) (w : W)
    → ignored sql o ≢ threw (sql_exception e) w
ignored_caught sql (ok u v) e w t = cc t
ignored_caught sql (threw d v) e w t = cc t
ignored_caught sql (fault v) e w t = cc t

module _ {W : Type 0} (sql : Connector W) where
  open sql use {Handle, Statement}

  cleaned_caught :
      (c : DbConnection Handle) (o : Attempt W Bool) (e : Text) (w : W)
      → (cleaned sql c o).1 ≢ threw (sql_exception e) w
  cleaned_caught c (ok b v) e w t = cc t
  cleaned_caught c (threw (sql_exception d) v) e w t =
      ignored_caught sql (reconnect sql c v).1 e w t
  cleaned_caught c (threw (runtime_error d) v) e w t =
      ignored_caught sql (reconnect sql c v).1 e w t
  cleaned_caught c (threw other_exception v) e w t = cc t
  cleaned_caught c (fault v) e w t = cc t

  -- No sql::SQLException leaves the test of a connection, the question whether it is valid, or its
  -- cleaning up.
  pub ping_caught :
      (fuel : ℕ) (c : DbConnection Handle) (w : W) (e : Text) (w' : W)
      → (ping sql c w ≢ threw (sql_exception e) w')
        × (is_valid sql c w ≢ threw (sql_exception e) w')
        × ((cleanup sql fuel c w).1 ≢ threw (sql_exception e) w')
  unfolding ping is_valid cleanup
  ping_caught fuel c w e w' = (
    caught_by_value false _ e w',
    elim (Option-cases c.conn) [
      | inl n ↦ rw (n, is_valid) (λ t. cc t)
      | inr (h, s) ↦ rw (s, is_valid) (caught_by_value false _ e w')
    ],
    elim (Option-cases c.conn) [
      | inl n ↦ rw (n, cleanup) (λ t. cc t)
      | inr (h, s) ↦ rw (s, cleanup) (cleaned_caught _ _ e w')
    ],
  )
