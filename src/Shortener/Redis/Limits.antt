-- ===== src/Shortener/Redis/Limits.antt =====
-- mw_RateLimitRedis.h: a counter for each client and second on the Redis server.
use http.Prelude.{ℕ, ◌+◌, [], ◌∷◌, ◌++◌, Option, none, some, if◌then◌else◌, ltb}
use http.Std.Text.{Text, codes, c_string}
use http.Std.Number.{to_string}
use http.Http.Request.{HttpRequest}
use http.Exceptions.{
  Outcome, Raised, response, std_exception, unknown_exception, fault, done, raise,
}
use http.Middleware.{Middleware}
use http.Database.{
  Attempt, Exception, sql_exception, runtime_error, other_exception, ok, threw,
  fault as null_pointer, ◌>>=◌, give,
}
use http.Shortener.{Metrics}
use http.Shortener.Limits.{Limited, limited_response, client_of, count_drop}
use http.Shortener.Redis.{
  Reply, string, status, integer, negative, error, other, Hiredis, Link, cmd,
}

-- An integer as it is, with 0 in the place of a negative one, and 1 where there is none.
abbrev pub value_of : Option Reply → ℕ
value_of none = 1
value_of (some (integer n)) = n
value_of (some negative) = 0
value_of (some (string s)) = 1
value_of (some (status s)) = 1
value_of (some (error s)) = 1
value_of (some other) = 1

-- What the server sees of an exception of the client.
abbrev pub raised_by : Exception → Raised
raised_by (sql_exception what) = std_exception what
raised_by (runtime_error what) = std_exception what
raised_by other_exception = unknown_exception

abbrev pub counter_key : ℕ → HttpRequest → Text
counter_key sec req = codes "rl:" ++ (client_of req ++ b':' ∷ to_string sec)

module _ {W : Type 0} (redis : Hiredis W) (rps window sec : ℕ) where
  open redis use {Context}

  -- INCR, and EXPIRE, of which the reply is not used
  unfoldable pub count_request : HttpRequest → Link Context W → Attempt (Link Context W) ℕ
  count_request req = cmd redis (codes "INCR" ∷ c_string (counter_key sec req) ∷ []) >>= λ r.
      cmd redis (codes "EXPIRE" ∷ c_string (counter_key sec req) ∷ to_string (window + 1) ∷ [])
      >>= λ _. give (value_of r)

  unfoldable pub judged :
      HttpRequest
      → Option Metrics
      → Attempt (Link Context W) ℕ
      → Outcome (Limited (Link Context W)) HttpRequest
  judged req metrics (ok n k) =
      if ltb rps n
      then raise (response limited_response) req
          (record { limiter = k; metrics = count_drop metrics })
      else done req (record { limiter = k; metrics = metrics })
  judged req metrics (threw e k) =
      raise (raised_by e) req (record { limiter = k; metrics = metrics })
  judged req metrics (null_pointer k) = raise fault req (record { limiter = k; metrics = metrics })

  unfoldable pub redis_limit_before :
      HttpRequest → Limited (Link Context W) → Outcome (Limited (Link Context W)) HttpRequest
  redis_limit_before req w = judged req w.metrics (count_request req w.limiter)

  abbrev pub redis_limit_middleware : Middleware (Limited (Link Context W))
  redis_limit_middleware = record { before = redis_limit_before; after = λ resp w. done resp w }
