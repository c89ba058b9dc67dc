-- ===== src/Session.antt =====
-- HttpServer/include/session and src/session: sessions, their storage in memory and the manager. A
-- std::shared_ptr to a session is its place in a heap, so that all who hold it see its changes.
pub mod Cookies
pub mod Continuity
mod Examples
use http.Prelude.{
  ℕ, ◌+◌, ◌*◌, ◌-◌, Bool, true, false, List, [], ◌∷◌, ◌++◌, Option, none, some, if◌then◌else◌, same,
  text_eq, nat_eq, ltb, map, length, drop,
}
use http.Std.Text.{Text, codes, cut, find, is_empty}
use http.Std.Map.{lookup, insert, erase}
use http.Http.Request.{HttpRequest, get_header, or_empty}
use http.Http.Response.{HttpResponse, add_header}

-- `manager` says whether `sessionManager_` is set; there is one manager. Times are in ticks, of which
-- `second` make a second.
pub record Session : Type 0 where
  pub session_id : Text
  pub values : List (Text × Text)
  pub expiry_time : ℕ
  pub max_age : ℕ
  pub manager : Bool

-- The sessions that live, by their places, and MemorySessionStorage::sessions_.
pub record Sessions : Type 0 where
  pub heap : List (ℕ × Session)
  pub stored : List (Text × ℕ)
  pub next : ℕ

unfoldable pub is_expired : ℕ → Session → Bool
is_expired now s = ltb s.expiry_time now

unfoldable pub refresh : ℕ → ℕ → Session → Session
refresh second now s = record s { expiry_time = now + s.max_age * second }

abbrev pub default_max_age : ℕ
default_max_age = 3600

-- Session(sessionId, manager, maxAge)
unfoldable pub new_session : ℕ → ℕ → Text → Bool → ℕ → Session
new_session second now id manager age =
    refresh second now
      (record { session_id = id; values = []; expiry_time = 0; max_age = age; manager = manager })

unfoldable pub get_value : Text → Session → Text
get_value key s = or_empty (lookup key s.values)

unfoldable pub remove_value : Text → Session → Session
remove_value key s = record s { values = erase key s.values }

abbrev pub clear : Session → Session
clear s = record s { values = [] }

abbrev pub change : (Session → Session) → ℕ → Sessions → Sessions
change f a w = elim (lookup a w.heap) [
  | none ↦ w
  | some s ↦ record w { heap = insert a (f s) w.heap }
]

-- MemorySessionStorage::save, load and remove
unfoldable pub save : ℕ → Sessions → Sessions
save a w = elim (lookup a w.heap) [
  | none ↦ w
  | some s ↦ record w { stored = insert s.session_id a w.stored }
]

unfoldable pub load : ℕ → Text → Sessions → Option ℕ × Sessions
load now id w = elim (lookup id w.stored) [
  | none ↦ (none, w)
  | some a ↦ elim (lookup a w.heap) [
    | none ↦ (none, w)
    | some s ↦
        if is_expired now s then (none, record w { stored = erase id w.stored }) else (some a, w)
  ]
]

unfoldable pub remove : Text → Sessions → Sessions
remove id w = record w { stored = erase id w.stored }

-- Session::setValue, which saves the session if it has a manager
unfoldable pub set_value : Text → Text → ℕ → Sessions → Sessions
set_value key value a w =
    let w' = change (λ s. record s { values = insert key value s.values }) a w in
    elim (lookup a w.heap) [ none ↦ w' | some s ↦ if s.manager then save a w' else w' ]

-- std::hex of a number from 0 to 15
abbrev pub hex_digit : ℕ → ℕ
hex_digit d = if ltb d 10 then b'0' + d else b'a' + (d - 10)

-- generateSessionId, of the 32 numbers that the generator gives
unfoldable pub generate_session_id : List ℕ → Text
generate_session_id draws = map hex_digit draws

abbrev pub until_semicolon : Text → Text
until_semicolon s = elim (cut b';' s) [ none ↦ s | some (id, _) ↦ id ]

unfoldable pub session_id_of_cookie : Text → Text
session_id_of_cookie cookie =
    if is_empty cookie then [] else elim (find (codes "sessionId=") cookie) [
      | none ↦ []
      | some pos ↦ until_semicolon (drop (pos + 10) cookie)
    ]

abbrev pub get_session_id_from_cookie : HttpRequest → Text
get_session_id_from_cookie req = session_id_of_cookie (get_header (codes "Cookie") req)

abbrev pub cookie_of : Text → Text
cookie_of id = codes "sessionId=" ++ (id ++ codes "; Path=/; HttpOnly")

unfoldable pub set_session_cookie : Text → HttpResponse → HttpResponse
set_session_cookie id resp = add_header (codes "Set-Cookie") (cookie_of id) resp

-- What the clock says at the four places of getSession that ask it.
pub record Clock : Type 0 where
  pub at_load : ℕ
  pub at_check : ℕ
  pub at_create : ℕ
  pub at_refresh : ℕ

pub record Answer : Type 0 where
  pub session : ℕ
  pub response : HttpResponse
  pub sessions : Sessions

-- the last two lines of getSession
unfoldable pub refresh_and_save : ℕ → ℕ → ℕ → Sessions → Sessions
refresh_and_save second now a w = save a (change (refresh second now) a w)

unfoldable pub create : ℕ → Clock → Text → HttpResponse → Sessions → Answer
create second clock id resp w =
    let fresh = record w {
      heap = insert w.next (new_session second clock.at_create id true default_max_age) w.heap;
      next = w.next + 1;
    } in
    record {
      session = w.next;
      response = set_session_cookie id resp;
      sessions = refresh_and_save second clock.at_refresh w.next fresh;
    }

unfoldable pub continue : ℕ → Clock → ℕ → HttpResponse → Sessions → Answer
continue second clock a resp w = record {
  session = a;
  response = resp;
  sessions =
      refresh_and_save second clock.at_refresh a (change (λ s. record s { manager = true }) a w);
}

-- The session that was loaded, unless there is none or it has expired since.
unfoldable pub loaded : ℕ → Clock → List ℕ → HttpResponse → Option ℕ × Sessions → Answer
loaded second clock draws resp (none, w) = create second clock (generate_session_id draws) resp w
loaded second clock draws resp (some a, w) = elim (lookup a w.heap) [
  | none ↦ create second clock (generate_session_id draws) resp w
  | some s ↦
      if is_expired clock.at_check s
      then create second clock (generate_session_id draws) resp w
      else continue second clock a resp w
]

unfoldable pub get_session : ℕ → Clock → List ℕ → HttpRequest → HttpResponse → Sessions → Answer
get_session second clock draws req resp w =
    let id = get_session_id_from_cookie req in
    loaded second clock draws resp (if is_empty id then (none, w) else load clock.at_load id w)

-- cleanExpiredSessions, which leaves that to `load`
abbrev pub clean_expired_sessions : Sessions → Sessions
clean_expired_sessions w = w

-- destroySession
unfoldable pub destroy_session : Text → Sessions → Sessions
destroy_session id w = remove id w
