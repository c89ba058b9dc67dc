-- ===== src/Database.antt =====
-- HttpServer/include/utils/db and src/utils/db: connections to the database and the pool of them. The
-- MySQL connector is a parameter.
pub mod Connection
pub mod Pool
pub mod Small
pub mod Util
mod Examples
use http.Prelude.{◌≡◌, ap}
use http.Std.Text.{Text}

-- What is thrown: a sql::SQLException, another std::exception, each with its text, or something else.
pub data Exception : Type 0 where
  sql_exception : Text → Exception
  runtime_error : Text → Exception
  other_exception : Exception

-- How a call ends: with a result, with an exception, or by following a null pointer.
pub data Attempt (W A : Type 0) : Type 0 where
  ok : A → W → Attempt W A
  threw : Exception → W → Attempt W A
  fault : W → Attempt W A

module _ {W A B : Type 0} where
  -- The next step behind this one.
  infixl 5 ◌>>=◌
  abbrev pub ◌>>=◌ : (W → Attempt W A) → (A → W → Attempt W B) → W → Attempt W B
  (m >>= f) w = elim (m w) [ ok a w' ↦ f a w' | threw e w' ↦ threw e w' | fault w' ↦ fault w' ]

  pub bind_ok :
      (m : W → Attempt W A) (f : A → W → Attempt W B) {w w' : W} {a : A}
      → m w ≡ ok a w'
      → (m >>= f) w ≡ f a w'
  bind_ok m f e =
      ap
        (λ (o : Attempt W A). elim o [
          | ok a w' ↦ f a w'
          | threw e w' ↦ threw e w'
          | fault w' ↦ fault w'
        ])
        e

module _ {W A : Type 0} where
  abbrev pub give : A → W → Attempt W A
  give a w = ok a w

  -- catch (const sql::SQLException&) with `handler`
  abbrev pub caught : (Text → W → Attempt W A) → Attempt W A → Attempt W A
  caught handler (ok a w) = ok a w
  caught handler (threw (sql_exception e) w) = handler e w
  caught handler (threw (runtime_error e) w) = threw (runtime_error e) w
  caught handler (threw other_exception w) = threw other_exception w
  caught handler (fault w) = fault w

  abbrev pub catching : (W → Attempt W A) → (Text → W → Attempt W A) → W → Attempt W A
  catching m handler w = caught handler (m w)

  -- `throw DbException(e.what())`, which is a std::runtime_error
  abbrev pub throw_db : Text → W → Attempt W A
  throw_db e w = threw (runtime_error e) w
