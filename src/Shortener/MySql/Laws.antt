-- ===== src/Shortener/MySql/Laws.antt =====
-- What a store in MySQL answers.
use http.Prelude.{
  ℕ, ◌+◌, ◌<◌, ◌≤◌, ◌≡◌, ◌≢◌, ◌⊎◌, ap, ◌∙◌, Bool, true, false, Option, none, some, arith,
  if◌then◌else◌,
}
use http.Std.Text.{Text}
use http.Database.{
  Attempt, sql_exception, runtime_error, other_exception, ok, threw, fault, ◌>>=◌, give, catching,
  bind_ok,
}
use http.Database.Connection.{Connector}
use http.Shortener.MySql.{insert_sql, is_over, write_row, mysql_set_nx, read_row, read_ttl_column}

-- What setNX makes of the end of its INSERT.
abbrev answer_of : {W : Type 0} → Attempt W (Unit {0}) → Attempt W Bool
answer_of (ok u w) = ok true w
answer_of (threw (sql_exception e) w) = ok false w
answer_of (threw (runtime_error e) w) = threw (runtime_error e) w
answer_of (threw other_exception w) = threw other_exception w
answer_of (fault w) = fault w

module _ {W : Type 0} where
  answered :
      (m : W → Attempt W (Unit {0})) (w : W)
      → catching (m >>= λ _. give true) (λ _. give false) w ≡ answer_of (m w)
  answered m w = ground arith

  answers_threw :
      (m : W → Attempt W (Unit {0})) (w : W) {e : Text} {w' : W}
      → catching (m >>= λ _. give true) (λ _. give false) w ≢ threw (sql_exception e) w'
  answers_threw m w h = ground arith

module _ {W : Type 0} (sql : Connector W) where
  open sql use {Handle, Statement, Results}

  -- setNX reports success where its INSERT goes through. Every sql::SQLException of the connector, one
  -- of a key that is there as well as one of a lost connection, makes it report failure, and none
  -- leaves it.
  pub mysql_set_nx_lem :
      (h : Handle) (key value : Text) (ttl : ℕ) (w : W)
      → ((w' : W)
          → write_row sql insert_sql h key value ttl w ≡ ok tt w'
          → mysql_set_nx sql h key value ttl w ≡ ok true w')
        × ((e : Text) (w' : W)
            → write_row sql insert_sql h key value ttl w ≡ threw (sql_exception e) w'
            → mysql_set_nx sql h key value ttl w ≡ ok false w')
        × ((e : Text) (w' : W) → mysql_set_nx sql h key value ttl w ≢ threw (sql_exception e) w')
  unfolding mysql_set_nx
  mysql_set_nx_lem h key value ttl w = (
    λ w' e. answered (write_row sql insert_sql h key value ttl) w ∙ ap answer_of e,
    λ d w' e. answered (write_row sql insert_sql h key value ttl) w ∙ ap answer_of e,
    λ d w' e. answers_threw (write_row sql insert_sql h key value ttl) w e,
  )

  abbrev judged : ℕ → Text → ℕ → ℕ → W → Attempt W (Option Text)
  judged now url ttl created = give (if is_over ttl created now then none else some url)

  abbrev with_ttl : ℕ → Results → Text → ℕ → W → Attempt W (Option Text)
  with_ttl now rs url ttl = sql.get_number rs 3 >>= judged now url ttl

  abbrev with_url : ℕ → Results → Text → W → Attempt W (Option Text)
  with_url now rs url = read_ttl_column sql rs >>= with_ttl now rs url

  -- A row that is read: `get` answers its text unless it has a time to live that has run out by more
  -- than a second.
  pub read_row_lem :
      (now : ℕ) (rs : Results) (w w1 w2 w3 : W) (url : Text) (ttl created : ℕ)
      → sql.get_string rs 1 w ≡ ok url w1
      → read_ttl_column sql rs w1 ≡ ok ttl w2
      → sql.get_number rs 3 w2 ≡ ok created w3
      → ((ttl ≡ 0) ⊎ (now ≤ created + ttl) → read_row sql now rs w ≡ ok (some url) w3)
        × ((0 < ttl) × (created + ttl < now) → read_row sql now rs w ≡ ok none w3)
  unfolding read_row is_over
  read_row_lem now rs w w1 w2 w3 url ttl created a b c =
      let e : read_row sql now rs w ≡ ok (if is_over ttl created now then none else some url) w3 =
        bind_ok (sql.get_string rs 1) (with_url now rs) a
        ∙ bind_ok (read_ttl_column sql rs) (with_ttl now rs url) b
        ∙ bind_ok (sql.get_number rs 3) (judged now url ttl) c in
      (λ h. e ∙ ap (λ o. ok o w3) (ground arith), λ h. e ∙ ap (λ o. ok o w3) (ground arith))
