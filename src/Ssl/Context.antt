-- ===== src/Ssl/Context.antt =====
-- SslContext.h and SslContext.cpp. Log lines are left out.
use http.Prelude.{Bool, true, false, [], ◌∷◌, Option, none, some, if◌then◌else◌}
use http.Std.Text.{is_empty}
use http.Ssl.{
  SslVersion, tls_1_0, tls_1_1, tls_1_2, tls_1_3, SslConfig, SslOption, no_sslv2, no_sslv3,
  no_compression, cipher_server_preference, no_tlsv1, no_tlsv1_1, no_tlsv1_2, no_tlsv1_3, OpenSsl,
}

-- What setupProtocol adds for the version of the settings.
abbrev pub version_option : SslVersion → SslOption
version_option tls_1_0 = no_tlsv1
version_option tls_1_1 = no_tlsv1_1
version_option tls_1_2 = no_tlsv1_2
version_option tls_1_3 = no_tlsv1_3

module _ {L : Type 0} (openssl : OpenSsl L) where
  open openssl use {Ctx}

  -- ~SslContext, by its ctx_
  unfoldable pub destroy_context : Option Ctx → L → L
  destroy_context none l = l
  destroy_context (some ctx) l = openssl.ctx_free ctx l

  -- the next call, where this one has succeeded
  abbrev and_if : Bool × L → (L → Bool × L) → Bool × L
  and_if (b, l) k = if b then k l else (false, l)

  unfoldable pub load_chain : SslConfig → Ctx → L → Bool × L
  load_chain config ctx l =
      if is_empty config.chain_file
      then (true, l)
      else openssl.ctx_use_certificate_chain_file ctx config.chain_file l

  unfoldable pub load_certificates : SslConfig → Ctx → L → Bool × L
  load_certificates config ctx l =
      and_if (openssl.ctx_use_certificate_file ctx config.cert_file l) λ l.
        and_if (openssl.ctx_use_private_key_file ctx config.key_file l)
          λ l. and_if (openssl.ctx_check_private_key ctx l) (load_chain config ctx)

  unfoldable pub setup_protocol : SslConfig → Ctx → L → Bool × L
  setup_protocol config ctx l =
      let l =
        openssl.ctx_set_options ctx (no_sslv2 ∷ no_sslv3 ∷ version_option config.version ∷ []) l in
      if is_empty config.cipher_list
      then (true, l)
      else openssl.ctx_set_cipher_list ctx config.cipher_list l

  unfoldable pub setup_session_cache : SslConfig → Ctx → L → L
  setup_session_cache config ctx l = openssl.ctx_set_timeout ctx config.session_timeout (
      openssl.ctx_sess_set_cache_size ctx config.session_cache_size
        (openssl.ctx_set_session_cache_mode ctx l))

  unfoldable pub prepare : SslConfig → Ctx → L → Bool × L
  prepare config ctx l =
      let l =
        openssl.ctx_set_options ctx
          (no_sslv2 ∷ no_sslv3 ∷ no_compression ∷ cipher_server_preference ∷ []) l in
      and_if (load_certificates config ctx l)
        λ l. and_if (setup_protocol config ctx l) λ l. (true, setup_session_cache config ctx l)

  -- initialize: its result, and ctx_ as it is left
  unfoldable pub initialize : SslConfig → L → Bool × Option Ctx × L
  initialize config l =
      let (made, l) = openssl.ctx_new l in
      elim made [
        | none ↦ (false, none, l)
        | some ctx ↦ let (b, l) = prepare config ctx l in (b, some ctx, l)
      ]
