-- ===== src/Ssl/Server.antt =====
-- The branches of HttpServer.cpp for encrypted connections: setSslConfig, onConnection and onMessage,
-- for one connection, whose entry of sslConns_ is its `Tls`.
pub mod Unanswered
use mathlib.Core.Option
use http.Prelude.{
  ℕ, zero, suc, Bool, true, false, List, [], ◌∷◌, ◌++◌, Option, none, some, if◌then◌else◌,
}
use http.Std.Text.{Text, is_empty}
use http.Http.Buffer.{bytes}
use http.Http.Context.{HttpContext, new_context, parse_request}
use http.Http.Server.{after_parse, Handled}
use http.Router.{Router}
use http.Middleware.{MiddlewareChain}
use http.Ssl.{SslConfig, OpenSsl}
use http.Ssl.Context.{initialize, destroy_context}
use http.Ssl.Connection.{
  SslConnection, Tls, new_ssl_connection, start_handshake, is_handshake_completed, on_read,
}

-- The rest of a connection: its context, the world of the handlers, and whether the program has ended.
pub record Peer (W : Type 0) : Type 0 where
  pub context : HttpContext
  pub world : W
  pub crashed : Bool

-- How a program goes on behind setSslConfig.
pub data Configured (Ctx : Type 0) : Type 0 where
  unused : Configured Ctx
  configured : Option Ctx → Configured Ctx
  aborted : Configured Ctx

-- How a new connection is left: plain, encrypted, or the program ended by a null pointer.
pub data Opened (Ssl Bio L : Type 0) : Type 0 where
  plain : Opened Ssl Bio L
  encrypted : Tls Ssl Bio L → Opened Ssl Bio L
  crashed_open : Opened Ssl Bio L

module _ {L : Type 0} (openssl : OpenSsl L) where
  open openssl use {Ctx, Ssl, Bio}

  -- setSslConfig; `old` is the context that is there, which is destroyed before the new one is set up
  unfoldable pub set_ssl_config : Bool → Option Ctx → SslConfig → L → Configured Ctx × L
  set_ssl_config use_ssl old config l =
      let (b, ctx, l') = initialize openssl config (destroy_context openssl old l) in
      if use_ssl then if b then (configured ctx, l') else (aborted, l') else (unused, l)

  unfoldable pub opened : Option (SslConnection Ssl Bio) → L → Opened Ssl Bio L
  opened none l = crashed_open
  opened (some c) l =
      encrypted (start_handshake openssl (record { connection = c; lib = l; effects = [] }))

  -- onConnection of a connection that is up; `ctx` is the context, if setSslConfig has made one
  unfoldable pub on_connection : Bool → Option Ctx → L → Opened Ssl Bio L
  on_connection false ctx l = plain
  on_connection true none l = crashed_open
  on_connection true (some ctx) l =
      let (made, l) = new_ssl_connection openssl ctx l in opened made l

  -- onConnection of one that is down: its entry is erased, and with it the object.
  unfoldable pub on_disconnection : Bool → Option (SslConnection Ssl Bio) → L → L
  on_disconnection true (some c) l = openssl.ssl_free c.ssl l
  on_disconnection true none l = l
  on_disconnection false c l = l

module _ {L : Type 0} (openssl : OpenSsl L) {Regex W : Type 0}
    (regex_match : Regex → Text → Option (List Text)) (router : Router Regex W)
    (chain : MiddlewareChain W) (time : ℕ) where
  open openssl use {Ssl, Bio}

  abbrev pub Message : Type 0
  Message = Option (Text × Tls Ssl Bio L × Peer W)

  -- the request in the decrypted buffer
  unfoldable pub on_decrypted_bytes : Text → Tls Ssl Bio L → Peer W → Message
  on_decrypted_bytes buf t peer =
      Option.map
        (λ p.
          let h : Handled Text W = after_parse bytes regex_match router chain p peer.world in
          (
            buf,
            record t {
              connection = record (t.connection) { decrypted_buffer = h.connection.buffer };
              effects = t.effects ++ h.effects;
            },
            record {
              context = h.connection.context;
              world = h.connection.world;
              crashed = h.crashed;
            },
          ))
        (parse_request bytes time peer.context t.connection.decrypted_buffer)

  -- behind onRead
  unfoldable pub after_read : Text × Tls Ssl Bio L × Peer W → Message
  after_read (buf, t, peer) =
      if is_handshake_completed openssl t.connection
      then if is_empty t.connection.decrypted_buffer
        then some (buf, t, peer)
        else on_decrypted_bytes buf t peer
      else some (buf, t, peer)

  -- onMessage, which onRead calls again for the bytes that it has decrypted; `none` where the fuel or
  -- the parser does not end
  unfoldable pub on_message_tls : ℕ → Text → Tls Ssl Bio L × Peer W → Message
  on_message_tls zero buf ts = none
  on_message_tls (suc fuel) buf ts =
      Option.bind
        (on_read openssl
          (some (λ decrypted us. Option.map (λ r. (r.1, r.2)) (on_message_tls fuel decrypted us)))
          buf ts)
        after_read

  -- What muduo calls for the bytes that arrive: the constructor of SslConnection has set it to onRead.
  unfoldable pub receive : ℕ → Text → Tls Ssl Bio L × Peer W → Message
  receive fuel =
      on_read openssl
        (some (λ decrypted us. Option.map (λ r. (r.1, r.2)) (on_message_tls fuel decrypted us)))
