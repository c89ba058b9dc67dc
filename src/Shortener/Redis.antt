-- ===== src/Shortener/Redis.antt =====
-- RedisClient.h. The connection of the calling thread is a member here, and hiredis is a parameter.
pub mod Store
pub mod Laws
pub mod Limits
mod Examples
use http.Prelude.{
  ℕ, ◌*◌, ◌/◌, ◌%◌, Bool, true, false, List, [], ◌∷◌, ◌++◌, Option, none, some, is_some,
}
use http.Std.Text.{Text, codes}
use http.Database.{Attempt, runtime_error, ok, threw, fault, ◌>>=◌, give}

-- A reply by its type. Of an integer that is negative only the type and the sign are used.
pub data Reply : Type 0 where
  string : Text → Reply
  status : Text → Reply
  integer : ℕ → Reply
  negative : Reply
  error : Text → Reply
  other : Reply

-- The calls of hiredis. A command is its arguments, which a format makes of its words and values.
pub record Hiredis (W : Type 0) : Type 1 where
  pub Context : Type 0
  -- host, port, and the seconds and microseconds of the timeout; `none` for a null pointer
  pub connect_with_timeout : Text → ℕ → ℕ → ℕ → W → Option Context × W
  -- errstr, where err is not 0
  pub err : Context → W → Option Text
  pub command : Context → List Text → W → Option Reply × W
  pub free : Context → W → W

pub record RedisClient (Context : Type 0) : Type 0 where
  pub host : Text
  pub port : ℕ
  pub seconds : ℕ
  pub microseconds : ℕ
  pub context : Option Context

-- A client beside the world.
pub record Link (Context W : Type 0) : Type 0 where
  pub client : RedisClient Context
  pub world : W

abbrev pub new_client : {C : Type 0} → Text → ℕ → ℕ → RedisClient C
new_client host port timeout_ms = record {
  host = host;
  port = port;
  seconds = timeout_ms / 1000;
  microseconds = timeout_ms % 1000 * 1000;
  context = none;
}

module _ {W : Type 0} (redis : Hiredis W) where
  open redis use {Context}

  unfoldable pub close : Link Context W → Link Context W
  close k = elim k.client.context [
    | none ↦ k
    | some c ↦ record {
      client = record (k.client) { context = none };
      world = redis.free c k.world;
    }
  ]

  -- connect, which does not connect yet
  unfoldable pub connect : Text → ℕ → ℕ → Link Context W → Link Context W
  connect host port timeout_ms k =
      let closed = close k in
      record closed {
        client = record (new_client host port timeout_ms) { context = closed.client.context };
      }

  unfoldable pub is_ok : Link Context W → Bool
  is_ok k = is_some k.client.context

  -- what `get` does with the result of connecting: the pointer is kept also where it throws
  unfoldable pub connected_to : Option Context → Link Context W → Attempt (Link Context W) Context
  connected_to none k = threw (runtime_error (codes "redis connect failed: no ctx")) k
  connected_to (some c) k =
      let kept : Link Context W = record {
        client = record (k.client) { context = some c };
        world = k.world;
      } in
      elim (redis.err c k.world) [
        | none ↦ ok c kept
        | some e ↦ threw (runtime_error (codes "redis connect failed: " ++ e)) kept
      ]

  unfoldable pub get_context : Link Context W → Attempt (Link Context W) Context
  get_context k = elim k.client.context [
    | some c ↦ ok c k
    | none ↦
        let (made, w) =
          redis.connect_with_timeout k.client.host k.client.port k.client.seconds
            k.client.microseconds k.world in
        connected_to made (record k { world = w })
  ]

  unfoldable pub run :
      List Text → Context → Link Context W → Attempt (Link Context W) (Option Reply)
  run args c k = let (reply, w) = redis.command c args k.world in ok reply (record k { world = w })

  -- Without a reply the connection is closed, and the command sent once more on a new one.
  unfoldable pub run_again :
      List Text → Option Reply → Link Context W → Attempt (Link Context W) (Option Reply)
  run_again args (some r) k = ok (some r) k
  run_again args none k = (get_context >>= run args) (close k)

  unfoldable pub cmd : List Text → Link Context W → Attempt (Link Context W) (Option Reply)
  cmd args = (get_context >>= run args) >>= run_again args
