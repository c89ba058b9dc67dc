-- ===== src/Ssl.antt =====
-- HttpServer/include/ssl and src/ssl: the settings, the context, and an encrypted connection. OpenSSL
-- is a parameter.
pub mod Context
pub mod Connection
pub mod Server
mod Examples
use http.Prelude.{ℕ, Bool, true, false, List, [], ◌∷◌, Option, none, some}
use http.Std.Text.{Text, codes}

pub data SslVersion : Type 0 where
  tls_1_0 : SslVersion
  tls_1_1 : SslVersion
  tls_1_2 : SslVersion
  tls_1_3 : SslVersion

pub data SslError : Type 0 where
  none_error : SslError
  want_read : SslError
  want_write : SslError
  syscall : SslError
  ssl_error : SslError
  unknown : SslError

pub data SslState : Type 0 where
  handshake : SslState
  established : SslState
  shut_down : SslState
  error : SslState

pub record SslConfig : Type 0 where
  pub cert_file : Text
  pub key_file : Text
  pub chain_file : Text
  pub version : SslVersion
  pub cipher_list : Text
  pub verify_client : Bool
  pub verify_depth : ℕ
  pub session_timeout : ℕ
  pub session_cache_size : ℕ

abbrev pub new_config : SslConfig
new_config = record {
  cert_file = [];
  key_file = [];
  chain_file = [];
  version = tls_1_2;
  cipher_list = codes "HIGH:!aNULL:!MDS";
  verify_client = false;
  verify_depth = 4;
  session_timeout = 300;
  session_cache_size = 20480;
}

-- The flags SSL_OP_… that the program sets; their bitwise or is a list.
pub data SslOption : Type 0 where
  no_sslv2 : SslOption
  no_sslv3 : SslOption
  no_compression : SslOption
  cipher_server_preference : SslOption
  no_tlsv1 : SslOption
  no_tlsv1_1 : SslOption
  no_tlsv1_2 : SslOption
  no_tlsv1_3 : SslOption

-- The calls of OpenSSL that the program makes, on the state `L` of the library with all its objects.
-- Where only the sign of a result is used, it is a Bool that says whether the call succeeded, and a
-- null pointer is `none`.
pub record OpenSsl (L : Type 0) : Type 1 where
  pub Ctx : Type 0
  pub Ssl : Type 0
  pub Bio : Type 0
  -- SSL_CTX_new(TLS_server_method())
  pub ctx_new : L → Option Ctx × L
  pub ctx_free : Ctx → L → L
  pub ctx_set_options : Ctx → List SslOption → L → L
  pub ctx_use_certificate_file : Ctx → Text → L → Bool × L
  pub ctx_use_private_key_file : Ctx → Text → L → Bool × L
  pub ctx_check_private_key : Ctx → L → Bool × L
  pub ctx_use_certificate_chain_file : Ctx → Text → L → Bool × L
  pub ctx_set_cipher_list : Ctx → Text → L → Bool × L
  -- with SSL_SESS_CACHE_SERVER
  pub ctx_set_session_cache_mode : Ctx → L → L
  pub ctx_sess_set_cache_size : Ctx → ℕ → L → L
  pub ctx_set_timeout : Ctx → ℕ → L → L
  pub ssl_new : Ctx → L → Option Ssl × L
  pub ssl_free : Ssl → L → L
  -- BIO_new(BIO_s_mem())
  pub bio_new : L → Option Bio × L
  pub set_bio : Ssl → Bio → Bio → L → L
  pub set_accept_state : Ssl → L → L
  -- SSL_set_mode with SSL_MODE_ACCEPT_MOVING_WRITE_BUFFER, and with SSL_MODE_ENABLE_PARTIAL_WRITE
  pub set_moving_write_buffer : Ssl → L → L
  pub set_partial_write : Ssl → L → L
  -- whether the result is 1
  pub do_handshake : Ssl → L → Bool × L
  -- SSL_get_error of the result of the last call
  pub get_error : Ssl → L → ℕ
  pub write : Ssl → Text → L → Bool × L
  -- at most as many bytes as said, and `none` where the result is not positive
  pub read : Ssl → ℕ → L → Option Text × L
  pub bio_pending : Bio → L → ℕ
  pub bio_write : Bio → Text → L → L
  pub bio_read : Bio → ℕ → L → Option Text × L

-- SSL_ERROR_NONE, SSL_ERROR_SSL, SSL_ERROR_WANT_READ, SSL_ERROR_WANT_WRITE and SSL_ERROR_SYSCALL
abbrev pub error_none : ℕ
error_none = 0

abbrev pub error_ssl : ℕ
error_ssl = 1

abbrev pub error_want_read : ℕ
error_want_read = 2

abbrev pub error_want_write : ℕ
error_want_write = 3

abbrev pub error_syscall : ℕ
error_syscall = 5
