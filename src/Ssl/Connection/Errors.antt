-- ===== src/Ssl/Connection/Errors.antt =====
-- How the handshake and handleError treat the errors of OpenSSL.
use http.Prelude.{◌≡◌, ◌≢◌, false, arith}
use http.Ssl.{OpenSsl, error_none}
use http.Ssl.Connection.{Tls, handle_handshake, handle_error, get_last_error}

module _ {L : Type 0} (openssl : OpenSsl L) where
  open openssl use {Ssl, Bio}

  -- Where a handshake is not finished and OpenSSL reports an error, handleHandshake shuts the
  -- connection down in the same cases as handleError does for getLastError, and leaves the members of
  -- the connection as they are.
  pub handle_handshake-handle_error :
      (t : Tls Ssl Bio L) (l : L)
      → openssl.do_handshake t.connection.ssl t.lib ≡ (false, l)
      → openssl.get_error t.connection.ssl l ≢ error_none
      → ((handle_handshake openssl t).effects
          ≡ (handle_error openssl
              (get_last_error openssl (record t { lib = l }))
              (record t { lib = l })).effects)
        × ((handle_handshake openssl t).connection ≡ t.connection)
  unfolding handle_handshake get_last_error handle_error
  handle_handshake-handle_error t l e n = (ground arith, ground arith)
