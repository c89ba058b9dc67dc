-- ===== src/Session/Continuity.antt =====
-- A session lives on from request to request.
use http.Prelude.{
  subst, ℕ, ◌+◌, ◌*◌, ◌≤◌, ◌<◌, ◌≡◌, refl, ap, sym, ◌∙◌, true, false, List, [], none, some, arith,
  same, same_refl, text_eq, nat_eq, ltb, if◌then◌else◌,
}
use http.Std.Text.{Text, is_empty}
use http.Std.Map.{lookup, insert, erase, lookup-insert, lookup-erase}
use http.Http.Request.{HttpRequest}
use http.Http.Response.{HttpResponse}
use http.Session.{
  set_session_cookie, Session, Sessions, Clock, new_session, refresh, is_expired, save, load,
  create, continue, loaded, get_session, refresh_and_save, change, default_max_age,
  generate_session_id, get_session_id_from_cookie,
}

-- The storage has a session at `a` under the id, with the default age and these values, which does
-- not expire before `expiry`.
pub record IsStored (id : Text) (a expiry : ℕ) (values : List (Text × Text)) (w : Sessions)
    : Type 0 where
  pub session : Session
  pub in_heap : lookup a w.heap ≡ some session
  pub id_same : session.session_id ≡ id
  pub in_storage : lookup id w.stored ≡ some a
  pub alive : session.expiry_time ≡ expiry
  pub aged : session.max_age ≡ default_max_age
  pub kept : session.values ≡ values

refresh_and_save-IsStored :
    (second now a : ℕ) (s : Session) (w : Sessions)
    → lookup a w.heap ≡ some s
    → s.max_age ≡ default_max_age
    → IsStored s.session_id a
        (now + default_max_age * second)
        s.values
        (refresh_and_save second now a w)
unfolding refresh_and_save save refresh
refresh_and_save-IsStored second now a s w e old =
    let heap = lookup-insert a a (refresh second now s) w.heap in
    record {
      session = refresh second now s;
      in_heap = ground (arith, same_refl a);
      id_same = refl;
      in_storage = ground (
        arith,
        same_refl a,
        same_refl s.session_id,
        lookup-insert s.session_id s.session_id a w.stored,
      );
      alive = ap (λ age. now + age * second) old;
      aged = old;
      kept = refl;
    }

create-IsStored :
    (second : ℕ) (clock : Clock) (id : Text) (resp : HttpResponse) (w : Sessions)
    → IsStored id w.next
        (clock.at_refresh + default_max_age * second)
        []
        (create second clock id resp w).sessions
unfolding create new_session refresh
create-IsStored second clock id resp w =
    let s = new_session second clock.at_create id true default_max_age in
    refresh_and_save-IsStored second clock.at_refresh w.next s
      (record w { heap = insert w.next s w.heap; next = w.next + 1 })
      (lookup-insert w.next w.next s w.heap ∙ (rw (same_refl w.next))) refl

load-IsStored :
    {values : List (Text × Text)} (now : ℕ) (id : Text) (a expiry : ℕ) (w : Sessions)
    → IsStored id a expiry values w
    → load now id w
      ≡ (if ltb expiry now then (none, record w { stored = erase id w.stored }) else (some a, w))
unfolding load is_expired
load-IsStored now id a expiry w h = rw (h.in_storage, load, h.in_heap, h.alive)

-- A request without a session in its cookie gets a new session with a generated id, which the
-- response tells the client. The session is stored, for an hour from now.
pub get_session_new :
    (second : ℕ) (clock : Clock) (draws : List ℕ) (req : HttpRequest) (resp : HttpResponse)
    (w : Sessions)
    → get_session_id_from_cookie req ≡ []
    → ((get_session second clock draws req resp w).response
        ≡ set_session_cookie (generate_session_id draws) resp)
      × IsStored
          (generate_session_id draws)
          (get_session second clock draws req resp w).session
          (clock.at_refresh + default_max_age * second)
          []
          (get_session second clock draws req resp w).sessions
unfolding get_session loaded create
get_session_new second clock draws req resp w e =
    rw e (refl, create-IsStored second clock (generate_session_id draws) resp w)

continue-IsStored :
    {values : List (Text × Text)} (second : ℕ) (clock : Clock) (resp : HttpResponse) (id : Text)
    (a expiry : ℕ) (w : Sessions)
    → IsStored id a expiry values w
    → IsStored id a
        (clock.at_refresh + default_max_age * second)
        values
        (continue second clock a resp w).sessions
unfolding continue
continue-IsStored {values} second clock resp id a expiry w h =
    let s' : Session = record (h.session) { manager = true } in
    let w' : Sessions = record w { heap = insert a s' w.heap } in
    let changed : change (λ s. record s { manager = true }) a w ≡ w' = rw (h.in_heap, change) in
    let r =
      refresh_and_save-IsStored second clock.at_refresh a s' w'
        (lookup-insert a a s' w.heap ∙ (rw (same_refl a))) h.aged in
    rw (changed, ← h.id_same, ← h.kept) r

-- A request with the id of a stored session that has not expired gets that session, the same object
-- with the values that it had. It is told nothing new, and the session lives an hour longer.
pub get_session_again :
    (second : ℕ) (clock : Clock) (draws : List ℕ) (req : HttpRequest) (resp : HttpResponse)
    (w : Sessions) (id : Text) (a expiry : ℕ) (values : List (Text × Text))
    → IsStored id a expiry values w
    → get_session_id_from_cookie req ≡ id
    → is_empty id ≡ false
    → clock.at_load ≤ expiry
    → clock.at_check ≤ expiry
    → ((get_session second clock draws req resp w).session ≡ a)
      × ((get_session second clock draws req resp w).response ≡ resp)
      × IsStored id a
          (clock.at_refresh + default_max_age * second)
          values
          (get_session second clock draws req resp w).sessions
unfolding get_session is_expired loaded continue
get_session_again second clock draws req resp w id a expiry values h c e l k =
    let fresh : ltb expiry clock.at_load ≡ false = ground arith in
    let still : ltb expiry clock.at_check ≡ false = ground arith in
    let found : get_session second clock draws req resp w ≡ continue second clock a resp w = rw (
      c,
      e,
      load-IsStored {values = values} clock.at_load id a expiry w h,
      fresh,
      loaded,
      h.in_heap,
      h.alive,
      still,
    ) in
    subst
      (λ x.
        (x.session ≡ a)
        × (x.response ≡ resp)
        × IsStored id a (clock.at_refresh + default_max_age * second) values x.sessions)
      (sym found)
      (unfold continue in (refl, refl, continue-IsStored second clock resp id a expiry w h))

-- The storage behind `create` has the session under the new id, and the others that it had.
create-stored :
    (second : ℕ) (clock : Clock) (id j : Text) (resp : HttpResponse) (w : Sessions)
    → lookup j (create second clock id resp w).sessions.stored
      ≡ (if same id j then some w.next else lookup j w.stored)
unfolding create refresh_and_save save refresh new_session
create-stored second clock id j resp w =
    let s = new_session second clock.at_create id true default_max_age in
    let heap = lookup-insert w.next w.next s w.heap in
    let again =
      lookup-insert w.next w.next (refresh second clock.at_refresh s) (insert w.next s w.heap) in
    ground (arith, heap, again, same_refl w.next, lookup-insert id j w.next w.stored)

-- A request with the id of a session that has expired, where the generated id is another: the expired
-- session is taken out of the storage, and the others stay. The client is told the generated id, under
-- which a new session without values is stored for an hour from now.
pub get_session_expired :
    (second : ℕ) (clock : Clock) (draws : List ℕ) (req : HttpRequest) (resp : HttpResponse)
    (w : Sessions) (id : Text) (a expiry : ℕ) (values : List (Text × Text))
    → IsStored id a expiry values w
    → get_session_id_from_cookie req ≡ id
    → is_empty id ≡ false
    → expiry < clock.at_load
    → same (generate_session_id draws) id ≡ false
    → ((get_session second clock draws req resp w).response
        ≡ set_session_cookie (generate_session_id draws) resp)
      × ((get_session second clock draws req resp w).session ≡ w.next)
      × IsStored
          (generate_session_id draws)
          w.next
          (clock.at_refresh + default_max_age * second)
          []
          (get_session second clock draws req resp w).sessions
      × ((j : Text)
          → lookup j (get_session second clock draws req resp w).sessions.stored ≡ (
              if same (generate_session_id draws) j
              then some w.next
              else if same id j
              then none
              else lookup j w.stored))
unfolding get_session loaded
get_session_expired second clock draws req resp w id a expiry values h c e l d =
    let late : ltb expiry clock.at_load ≡ true = ground arith in
    let new = generate_session_id draws in
    let left : Sessions = record w { stored = erase id w.stored } in
    let made : get_session second clock draws req resp w ≡ create second clock new resp left =
      rw (c, e, load-IsStored {values = values} clock.at_load id a expiry w h, late, loaded) in
    rw made (
      unfold create in
      (
        refl,
        refl,
        create-IsStored second clock new resp left,
        λ j.
            create-stored second clock new j resp left
            ∙ ap (λ o. if same new j then some w.next else o) (lookup-erase id j w.stored),
      ))
