-- ===== src/Shortener/Redis/Store.antt =====
-- RedisStore.h and RedisBloom.h.
use http.Prelude.{
  ℕ, Bool, true, false, List, [], ◌∷◌, ◌++◌, Option, none, some, if◌then◌else◌, ◌==◌, text_eq, same,
}
use http.Std.Text.{Text, codes, c_string}
use http.Std.Number.{to_string, is_positive}
use http.Database.{Attempt, ◌>>=◌, give}
use http.Shortener.Redis.{
  Reply, string, status, integer, negative, error, other, Hiredis, Link, cmd,
}

unfoldable pub full_key : Text → Text → Text
full_key prefix key = c_string (prefix ++ key)

-- the arguments of SET behind the value: `%s %d` of the time to live
abbrev pub expiry : ℕ → List Text
expiry ttl =
    (if is_positive ttl then codes "EX" else [])
    ∷ (if is_positive ttl then to_string ttl else to_string 0)
    ∷ []

abbrev pub string_of : Option Reply → Option Text
string_of none = none
string_of (some (string s)) = some s
string_of (some _) = none

abbrev pub is_status_ok : Option Reply → Bool
is_status_ok none = false
is_status_ok (some (status s)) = same s (codes "OK")
is_status_ok (some _) = false

abbrev pub is_one : Option Reply → Bool
is_one none = false
is_one (some (integer n)) = n == 1
is_one (some _) = false

module _ {W : Type 0} (redis : Hiredis W) where
  open redis use {Context}

  module _ (prefix : Text) where
    unfoldable pub redis_get : Text → Link Context W → Attempt (Link Context W) (Option Text)
    redis_get key = cmd redis (codes "GET" ∷ full_key prefix key ∷ []) >>= λ r. give (string_of r)

    unfoldable pub redis_set_nx : Text → Text → ℕ → Link Context W → Attempt (Link Context W) Bool
    redis_set_nx key value ttl =
        cmd redis (codes "SET" ∷ full_key prefix key ∷ value ∷ codes "NX" ∷ expiry ttl) >>= λ r.
        give (is_status_ok r)

    unfoldable pub redis_set :
        Text → Text → ℕ → Link Context W → Attempt (Link Context W) (Unit {0})
    redis_set key value ttl =
        cmd redis (codes "SET" ∷ full_key prefix key ∷ value ∷ expiry ttl) >>= λ r. give tt

    unfoldable pub redis_del : Text → Link Context W → Attempt (Link Context W) (Unit {0})
    redis_del key = cmd redis (codes "DEL" ∷ full_key prefix key ∷ []) >>= λ r. give tt

  -- RedisBloom, which falls back on a set where the server has no Bloom filters
  unfoldable pub reserve : Text → Link Context W → Attempt (Link Context W) Bool
  reserve bloom_key =
      cmd redis (codes "BF.RESERVE" ∷ c_string bloom_key ∷ codes "0.001" ∷ codes "1000000" ∷ [])
      >>= λ r. give (elim r [
        | none ↦ true
        | some reply ↦ elim reply [
          | error e ↦ false
          | string s ↦ true
          | status s ↦ true
          | integer n ↦ true
          | negative ↦ true
          | other ↦ true
        ]
      ])

  module _ (bloom_ok : Bool) (bloom_key set_key : Text) where
    unfoldable pub bloom_add : Text → Link Context W → Attempt (Link Context W) (Unit {0})
    bloom_add s =
        cmd redis (
          if bloom_ok
          then codes "BF.ADD" ∷ c_string bloom_key ∷ c_string s ∷ []
          else codes "SADD" ∷ c_string set_key ∷ c_string s ∷ [])
        >>= λ r. give tt

    unfoldable pub bloom_might_contain : Text → Link Context W → Attempt (Link Context W) Bool
    bloom_might_contain s =
        cmd redis (
          if bloom_ok
          then codes "BF.EXISTS" ∷ c_string bloom_key ∷ c_string s ∷ []
          else codes "SISMEMBER" ∷ c_string set_key ∷ c_string s ∷ [])
        >>= λ r. give (is_one r)
