-- ===== src/Ssl/Connection.antt =====
-- SslConnection.h and SslConnection.cpp. Log lines are left out, the error queue with them.
pub mod Sending
pub mod Errors
use mathlib.Core.Option
use http.Prelude.{
  ℕ, zero, suc, ◌≤◌, Bool, true, false, List, [], ◌∷◌, ◌++◌, Option, none, some, if◌then◌else◌,
  ◌==◌, ltb, leb, length, take, drop,
}
use http.Std.Text.{Text}
use http.Http.Server.{Effect, send, shutdown}
use http.Ssl.{
  SslError, none_error, want_read, want_write, syscall, ssl_error, unknown, SslState, handshake,
  established, shut_down, error, OpenSsl, error_none, error_ssl, error_want_read, error_want_write,
  error_syscall,
}

-- The members of a connection whose ssl_ and BIOs are there. The buffers of muduo are their bytes.
pub record SslConnection (Ssl Bio : Type 0) : Type 0 where
  pub ssl : Ssl
  pub state : SslState
  pub read_bio : Bio
  pub write_bio : Bio
  pub read_buffer : Text
  pub write_buffer : Text
  pub decrypted_buffer : Text

-- A connection beside the library and what has been done to the TCP connection, in order.
pub record Tls (Ssl Bio L : Type 0) : Type 0 where
  pub connection : SslConnection Ssl Bio
  pub lib : L
  pub effects : List Effect

abbrev pub is_established : SslState → Bool
is_established established = true
is_established _ = false

module _ {L : Type 0} (openssl : OpenSsl L) where
  open openssl use {Ctx, Ssl, Bio}

  -- the constructor, behind SSL_new
  unfoldable pub with_bios : Ssl → Option Bio → Option Bio → L → Option (SslConnection Ssl Bio) × L
  with_bios ssl (some read_bio) (some write_bio) l = (
    some (record {
      ssl = ssl;
      state = handshake;
      read_bio = read_bio;
      write_bio = write_bio;
      read_buffer = [];
      write_buffer = [];
      decrypted_buffer = [];
    }),
    openssl.set_partial_write ssl (
        openssl.set_moving_write_buffer ssl
          (openssl.set_accept_state ssl (openssl.set_bio ssl read_bio write_bio l))),
  )
  with_bios ssl none write_bio l = (none, openssl.ssl_free ssl l)
  with_bios ssl (some read_bio) none l = (none, openssl.ssl_free ssl l)

  -- SslConnection(conn, ctx), `none` where ssl_ is left null
  unfoldable pub new_ssl_connection : Ctx → L → Option (SslConnection Ssl Bio) × L
  new_ssl_connection ctx l =
      let (made, l) = openssl.ssl_new ctx l in
      elim made [
        | none ↦ (none, l)
        | some ssl ↦
            let (read_bio, l) = openssl.bio_new l in
            let (write_bio, l) = openssl.bio_new l in with_bios ssl read_bio write_bio l
      ]

  unfoldable pub is_handshake_completed : SslConnection Ssl Bio → Bool
  is_handshake_completed c = is_established c.state

  unfoldable pub handle_handshake : Tls Ssl Bio L → Tls Ssl Bio L
  handle_handshake t =
      let (finished, l) = openssl.do_handshake t.connection.ssl t.lib in
      let e = openssl.get_error t.connection.ssl l in
      if finished
      then record t { connection = record (t.connection) { state = established }; lib = l }
      else if e == error_want_read
      then record t { lib = l }
      else if e == error_want_write
      then record t { lib = l }
      else record t { lib = l; effects = t.effects ++ shutdown ∷ [] }

  unfoldable pub start_handshake : Tls Ssl Bio L → Tls Ssl Bio L
  start_handshake t =
      handle_handshake (record t { lib = openssl.set_accept_state t.connection.ssl t.lib })

  -- One turn of the loop of `send` and the turns behind it, at most as many as the fuel.
  unfoldable pub flush : ℕ → Tls Ssl Bio L → Tls Ssl Bio L
  flush zero t = t
  flush (suc fuel) t =
      let pending = openssl.bio_pending t.connection.write_bio t.lib in
      let (got, l) =
        openssl.bio_read t.connection.write_bio (if leb pending 4096 then pending else 4096)
          t.lib in
      let sent : List Effect = elim got [
        | none ↦ t.effects
        | some data_read ↦ t.effects ++ send data_read ∷ []
      ] in
      let rest = flush fuel (record t { lib = l; effects = sent }) in
      if ltb 0 pending then rest else t

  -- `fuel` is for the loop that empties the BIO.
  unfoldable pub send_data : ℕ → Text → Tls Ssl Bio L → Tls Ssl Bio L
  send_data fuel bytes t =
      let (written, l) = openssl.write t.connection.ssl bytes t.lib in
      if is_established t.connection.state
      then if written then flush fuel (record t { lib = l }) else record t { lib = l }
      else t

  unfoldable pub on_encrypted : Text → Tls Ssl Bio L → Tls Ssl Bio L
  on_encrypted bytes t =
      let whole = t.connection.write_buffer ++ bytes in
      record t {
        connection = record (t.connection) { write_buffer = [] };
        effects = t.effects ++ send whole ∷ [];
      }

  unfoldable pub on_decrypted : Text → SslConnection Ssl Bio → SslConnection Ssl Bio
  on_decrypted bytes c = record c { decrypted_buffer = c.decrypted_buffer ++ bytes }

  unfoldable pub get_last_error : Tls Ssl Bio L → SslError
  get_last_error t =
      let e = openssl.get_error t.connection.ssl t.lib in
      if e == error_none
      then none_error
      else if e == error_want_read
      then want_read
      else if e == error_want_write
      then want_write
      else if e == error_syscall
      then syscall
      else if e == error_ssl
      then ssl_error
      else unknown

  abbrev fail : Tls Ssl Bio L → Tls Ssl Bio L
  fail t = record t {
    connection = record (t.connection) { state = error };
    effects = t.effects ++ shutdown ∷ [];
  }

  unfoldable pub handle_error : SslError → Tls Ssl Bio L → Tls Ssl Bio L
  handle_error want_read t = t
  handle_error want_write t = t
  handle_error ssl_error t = fail t
  handle_error syscall t = fail t
  handle_error unknown t = fail t
  handle_error none_error t = t

  -- bioWrite, `none` for -1: the length that it returns
  unfoldable pub bio_write : Option (Tls Ssl Bio L) → Text → Option (ℕ × Tls Ssl Bio L)
  bio_write none bytes = none
  bio_write (some t) bytes =
      some (length bytes, record t { effects = t.effects ++ send bytes ∷ [] })

  -- bioRead, `none` for -1: the bytes that it copies
  unfoldable pub bio_read :
      Option (SslConnection Ssl Bio) → ℕ → Option (Text × SslConnection Ssl Bio)
  bio_read none n = none
  bio_read (some c) n =
      let readable = length c.read_buffer in
      let to_read = if ltb readable n then readable else n in
      if readable == 0
      then none
      else some (take to_read c.read_buffer, record c { read_buffer = drop to_read c.read_buffer })

  -- bioCtrl, where BIO_CTRL_FLUSH is 11
  unfoldable pub bio_ctrl : ℕ → ℕ
  bio_ctrl cmd = if cmd == 11 then 1 else 0

-- onRead, with what messageCallback_ does; `none` where that does not end. `retrieve` empties the
-- buffer it was given, and the result is that buffer.
module _ {L : Type 0} (openssl : OpenSsl L) {S : Type 0}
    (callback : Option
      (Text → Tls openssl.Ssl openssl.Bio L × S → Option (Tls openssl.Ssl openssl.Bio L × S))) where
  open openssl use {Ssl, Bio}

  abbrev Result : Type 0
  Result = Option (Text × Tls Ssl Bio L × S)

  unfoldable pub pass_on : Text → Text → Tls Ssl Bio L × S → Result
  pass_on buf decrypted (t, s) = elim callback [
    | none ↦ some (buf, t, s)
    | some f ↦ Option.map (λ r. (buf, r.0, r.1)) (f decrypted (t, s))
  ]

  unfoldable pub on_read : Text → Tls Ssl Bio L × S → Result
  on_read buf (t, s) = elim t.connection.state [
    | handshake ↦ some (
      [],
      handle_handshake openssl
          (record t { lib = openssl.bio_write t.connection.read_bio buf t.lib }),
      s,
    )
    | established ↦
        let (got, l) = openssl.read t.connection.ssl 4096 t.lib in
        let t' : Tls Ssl Bio L = record t { lib = l } in
        elim got [ none ↦ some (buf, t', s) | some decrypted ↦ pass_on buf decrypted (t', s) ]
    | shut_down ↦ some (buf, t, s)
    | error ↦ some (buf, t, s)
  ]
