-- ===== src/Session/Cookies.antt =====
-- The cookie that carries a session's id.
use http.Prelude.{ℕ, ◌≡◌, ◌≢◌, refl, ◌∙◌, List, [], ◌∷◌, ◌++◌, arith}
use http.Std.Text.{Text, codes, find, starts_with, Lacks, cut-append, cut-eq-none}
use http.Session.{session_id_of_cookie, cookie_of, until_semicolon, hex_digit, generate_session_id}

from_start : (s : Text) → session_id_of_cookie (codes "sessionId=" ++ s) ≡ until_semicolon s
unfolding session_id_of_cookie find starts_with
from_start s = refl

-- The cookie that the server sets is read back as the id, and so is one that holds nothing but the
-- id. The id has no semicolon.
pub session_id_of_cookie-cookie_of :
    (id : Text)
    → Lacks b';' id
    → (session_id_of_cookie (cookie_of id) ≡ id)
      × (session_id_of_cookie (codes "sessionId=" ++ id) ≡ id)
session_id_of_cookie-cookie_of id h = (
  from_start (id ++ codes "; Path=/; HttpOnly")
      ∙ (rw (cut-append b';' id (codes " Path=/; HttpOnly") h, until_semicolon)),
  from_start id ∙ (rw (cut-eq-none b';' id h, until_semicolon)),
)

hex_digit_lem : (d : ℕ) → hex_digit d ≢ b';'
hex_digit_lem d = ground arith

-- A generated id has no semicolon, whatever the generator gives.
pub generate_session_id-Lacks : (draws : List ℕ) → Lacks b';' (generate_session_id draws)
unfolding generate_session_id
generate_session_id-Lacks [] = tt
generate_session_id-Lacks (d ∷ ds) = (hex_digit_lem d, generate_session_id-Lacks ds)
