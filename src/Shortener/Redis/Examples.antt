-- ===== src/Shortener/Redis/Examples.antt =====
-- A small server in the place of Redis, and the theorems at concrete inputs.
use http.Prelude.{
  ◌≡◌, refl, true, false, List, [], ◌∷◌, Option, none, some, is_some, arith, if◌then◌else◌, same,
  text_eq, list_beq,
}
use http.Std.Text.{Text, codes}
use http.Std.Map.{lookup, insert, lookup-insert}
use http.Database.{ok}
use http.Shortener.Redis.{Reply, status, error, other, Hiredis, Link, new_client}
use http.Shortener.Redis.Store.{redis_set_nx, redis_set, redis_get, full_key}
use http.Shortener.Redis.Laws.{ServerLaws, reply_of, redis_set_nx_new, redis_set_forever}

abbrev Keys : Type 0
Keys = List (Text × Text)

-- The five commands that the laws speak of; every other one is an error.
answer_to : List Text → Keys → Option Reply × Keys
answer_to (c ∷ k ∷ []) m =
    if same c (codes "GET") then (some (reply_of (lookup k m)), m) else (some (error []), m)
answer_to (c ∷ k ∷ v ∷ o ∷ t ∷ []) m =
    if same c (codes "SET")
    then if same o (codes "EX")
      then (some (status (codes "OK")), insert k v m)
      else (some (error []), m)
    else (some (error []), m)
answer_to (c ∷ k ∷ v ∷ o ∷ p ∷ t ∷ []) m =
    if same c (codes "SET")
    then if same p (codes "EX")
      then if is_some (lookup k m)
        then (some other, m)
        else (some (status (codes "OK")), insert k v m)
      else (some (error []), m)
    else (some (error []), m)
answer_to _ m = (some (error []), m)

abbrev small : Hiredis Keys
small = record {
  Context = Unit {0};
  connect_with_timeout = λ h p s u w. (some tt, w);
  err = λ c w. none;
  command = λ c args w. answer_to args w;
  free = λ c w. w;
}

small-ServerLaws : ServerLaws small
unfolding answer_to list_beq
small-ServerLaws = record {
  read = λ k w. lookup k w;
  get_lem = λ c k w. refl;
  set = insert;
  read-set = λ k v j w. lookup-insert k j v w;
  set_lem = λ c k v n w p q. refl;
  set_nx_lem = λ c k v n w p q. refl;
  error_text = [];
  set_unknown = λ c k v t w. refl;
  set_nx_unknown = λ c k v t w. refl;
}

abbrev linked : Link (Unit {0}) Keys
linked = record {
  client = record (new_client (codes "127.0.0.1") 6379 200) { context = some tt };
  world = [];
}

abbrev prefix : Text
prefix = codes "short:"

redis_set_nx_new_example :
    (t : Link (Unit {0}) Keys) × (redis_set_nx small prefix (codes "a") (codes "u") 60 linked
      ≡ ok true t)
    × (redis_get small prefix (codes "a") t ≡ ok (some (codes "u")) t)
    × ((j : Text)
        → same (full_key prefix (codes "a")) (full_key prefix j) ≡ false
        → redis_get small prefix j t ≡ ok none t)
unfolding small-ServerLaws lookup
redis_set_nx_new_example =
    redis_set_nx_new small small-ServerLaws prefix (codes "a") (codes "u") 60 tt linked refl
      (omega arith) (omega arith) refl

redis_set_forever_example :
    (redis_set_nx small prefix (codes "a") (codes "u") 0 linked ≡ ok false linked)
    × (redis_set small prefix (codes "a") (codes "u") 0 linked ≡ ok tt linked)
redis_set_forever_example =
    redis_set_forever small small-ServerLaws prefix (codes "a") (codes "u") 0 tt linked refl refl
