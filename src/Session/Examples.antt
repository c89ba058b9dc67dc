-- ===== src/Session/Examples.antt =====
-- Tests of the sessions, and the theorems at concrete inputs.
use http.Prelude.{
  ◌++◌, ℕ, ◌+◌, ◌*◌, ◌≡◌, refl, true, false, List, [], ◌∷◌, arith, text_eq, nat_eq, list_beq, same,
  if◌then◌else◌, some, none,
}
use http.Std.Text.{Text, codes, cut, find, starts_with}
use http.Std.Map.{lookup, insert, erase}
use http.Http.Request.{HttpRequest, new_request}
use http.Http.Response.{new_response}
use http.Session.{
  cookie_of, Answer, set_session_cookie, Sessions, Clock, get_session, session_id_of_cookie,
  generate_session_id, default_max_age,
}
use http.Session.Cookies.{session_id_of_cookie-cookie_of}
use http.Session.Continuity.{IsStored, get_session_again, get_session_expired}

sessions : Unit {0}
unfolding cut find starts_with lookup insert erase session_id_of_cookie list_beq
sessions = tt

other_cookie_test : session_id_of_cookie (codes "a=b; sessionId=0af; c=d") ≡ codes "0af"
unfolding sessions
other_cookie_test = refl

abbrev clock : ℕ → Clock
clock t = record { at_load = t; at_check = t; at_create = t; at_refresh = t }

abbrev no_sessions : Sessions
no_sessions = record { heap = []; stored = []; next = 0 }

abbrev cart : List (Text × Text)
cart = (codes "cart", codes "3") ∷ []

abbrev stored : Sessions
stored = record {
  heap =
      (
        4,
        record {
          session_id = codes "0af";
          values = cart;
          expiry_time = 100;
          max_age = 3600;
          manager = true;
        },
      )
      ∷ [];
  stored = (codes "0af", 4) ∷ [];
  next = 5;
}

stored-IsStored : IsStored (codes "0af") 4 100 cart stored
unfolding sessions
stored-IsStored = record {
  session = record {
    session_id = codes "0af";
    values = cart;
    expiry_time = 100;
    max_age = 3600;
    manager = true;
  };
  in_heap = refl;
  id_same = refl;
  in_storage = refl;
  alive = refl;
  aged = refl;
  kept = refl;
}

abbrev with_cookie : HttpRequest
with_cookie = record new_request { headers = (codes "Cookie", codes "sessionId=0af") ∷ [] }

get_session_again_example :
    ((get_session 1 (clock 90) [] with_cookie (new_response false) stored).session ≡ 4)
    × ((get_session 1 (clock 90) [] with_cookie (new_response false) stored).response
        ≡ new_response false)
    × IsStored
        (codes "0af")
        4
        (90 + default_max_age * 1)
        cart
        (get_session 1 (clock 90) [] with_cookie (new_response false) stored).sessions
unfolding sessions
get_session_again_example =
    get_session_again 1 (clock 90) [] with_cookie (new_response false) stored (codes "0af") 4 100
      cart stored-IsStored refl refl (omega arith) (omega arith)

abbrev renewed : Answer
renewed = get_session 1 (clock 101) (7 ∷ []) with_cookie (new_response false) stored

get_session_expired_example :
    (renewed.response ≡ set_session_cookie (codes "7") (new_response false))
    × (renewed.session ≡ 5)
    × IsStored (codes "7") 5 3701 [] renewed.sessions
    × ((j : Text)
        → lookup j renewed.sessions.stored ≡ (
            if same (codes "7") j
            then some 5
            else if same (codes "0af") j
            then none
            else lookup j stored.stored))
unfolding sessions generate_session_id
get_session_expired_example =
    get_session_expired 1 (clock 101) (7 ∷ []) with_cookie (new_response false) stored (codes "0af")
      4 100 cart stored-IsStored refl refl (omega arith) refl

session_id_of_cookie-cookie_of_example :
    (session_id_of_cookie (cookie_of (codes "0af")) ≡ codes "0af")
    × (session_id_of_cookie (codes "sessionId=" ++ codes "0af") ≡ codes "0af")
session_id_of_cookie-cookie_of_example = session_id_of_cookie-cookie_of (codes "0af") (omega arith)
