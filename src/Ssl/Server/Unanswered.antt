-- ===== src/Ssl/Server/Unanswered.antt =====
-- What encrypted connections get for their requests.
use mathlib.Core.Option
use http.Prelude.{
  ℕ, zero, suc, ◌≤◌, ◌<◌, ◌≡◌, ◌⊎◌, inl, inr, refl, ap, ◌∙◌, List, [], ◌∷◌, ◌++◌, Option, none,
  some, arith, Option-cases,
}
use http.Std.Text.{Text}
use http.Http.Server.{shutdown}
use http.Router.{Router}
use http.Middleware.{MiddlewareChain}
use http.Ssl.{OpenSsl, SslState, handshake, established, shut_down, error}
use http.Ssl.Connection.{Tls, handle_handshake, is_handshake_completed, on_read, pass_on}
use http.Ssl.Server.{Peer, Message, after_read, on_message_tls, receive}

-- SSL_read takes the bytes that it returns out of what the library holds.
pub record ReadLaws {L : Type 0} (openssl : OpenSsl L) : Type 0 where
  pub held_bytes : L → ℕ
  pub read_lem :
      (ssl : openssl.Ssl) (n : ℕ) (l l' : L) (d : Text)
      → openssl.read ssl n l ≡ (some d, l')
      → held_bytes l' < held_bytes l

state_cases :
    (s : SslState) → ((s ≡ handshake) ⊎ (s ≡ established)) ⊎ ((s ≡ shut_down) ⊎ (s ≡ error))
state_cases handshake = inl (inl refl)
state_cases established = inl (inr refl)
state_cases shut_down = inr (inl refl)
state_cases error = inr (inr refl)

module _ {L : Type 0} (openssl : OpenSsl L) {Regex W : Type 0}
    (regex_match : Regex → Text → Option (List Text)) (router : Router Regex W)
    (chain : MiddlewareChain W) (time : ℕ) (laws : ReadLaws openssl) where
  open openssl use {Ssl, Bio}
  open laws use {held_bytes, read_lem}

  abbrev message : ℕ → Text → Tls Ssl Bio L × Peer W → Message openssl regex_match router chain time
  message = on_message_tls openssl regex_match router chain time

  abbrev behind : ℕ → Text → Tls Ssl Bio L × Peer W → Option (Tls Ssl Bio L × Peer W)
  behind fuel decrypted us = Option.map (λ r. (r.1, r.2)) (message fuel decrypted us)

  handle_handshake-decrypted :
      (t : Tls Ssl Bio L)
      → (handle_handshake openssl t).connection.decrypted_buffer ≡ t.connection.decrypted_buffer
  unfolding handle_handshake
  handle_handshake-decrypted t = ground arith

  handle_handshake-effects :
      (t : Tls Ssl Bio L)
      → ((handle_handshake openssl t).effects ≡ t.effects)
        ⊎ ((handle_handshake openssl t).effects ≡ t.effects ++ shutdown ∷ [])
  unfolding handle_handshake
  handle_handshake-effects t = ground arith

  after_read_empty :
      (buf : Text) (t : Tls Ssl Bio L) (peer : Peer W)
      → t.connection.decrypted_buffer ≡ []
      → after_read openssl regex_match router chain time (buf, t, peer) ≡ some (buf, t, peer)
  unfolding after_read is_handshake_completed
  after_read_empty buf t peer e = ground arith

  read_nothing :
      (fuel : ℕ) (buf : Text) (t : Tls Ssl Bio L) (peer : Peer W)
      → t.connection.state ≡ established
      → (openssl.read t.connection.ssl 4096 t.lib).0 ≡ none
      → on_read openssl (some (behind fuel)) buf (t, peer)
        ≡ some (buf, record t { lib = (openssl.read t.connection.ssl 4096 t.lib).1 }, peer)
  unfolding on_read
  read_nothing fuel buf t peer e n = ground arith

  read_some :
      (fuel : ℕ) (buf d : Text) (t u : Tls Ssl Bio L) (peer : Peer W)
      → t.connection.state ≡ established
      → (openssl.read t.connection.ssl 4096 t.lib).0 ≡ some d
      → behind fuel d (record t { lib = (openssl.read t.connection.ssl 4096 t.lib).1 }, peer)
        ≡ some (u, peer)
      → on_read openssl (some (behind fuel)) buf (t, peer) ≡ some (buf, u, peer)
  unfolding on_read pass_on
  read_some fuel buf d t u peer e n b =
      rw (e, on_read) (rw (n) (ap (Option.map (λ r. (buf, r.0, r.1))) b))

  again :
      (fuel : ℕ) (buf : Text) (ts : Tls Ssl Bio L × Peer W) (t : Tls Ssl Bio L) (peer : Peer W)
      → t.connection.decrypted_buffer ≡ []
      → on_read openssl (some (behind fuel)) buf ts ≡ some (buf, t, peer)
      → behind (suc fuel) buf ts ≡ some (t, peer)
  unfolding on_message_tls Option.bind
  again fuel buf ts t peer d r = rw (r, after_read_empty buf t peer d) refl

  -- Behind the handshake there is nothing but SSL_read, again and again, until it has no more bytes.
  read_established :
      (fuel : ℕ) (buf : Text) (t : Tls Ssl Bio L) (peer : Peer W)
      → t.connection.state ≡ established
      → t.connection.decrypted_buffer ≡ []
      → held_bytes t.lib ≤ fuel
      → (l : L) × (on_read openssl (some (behind fuel)) buf (t, peer)
          ≡ some (buf, record t { lib = l }, peer))
  read_established zero buf t peer e d h =
      let l = (openssl.read t.connection.ssl 4096 t.lib).1 in
      elim (Option-cases (openssl.read t.connection.ssl 4096 t.lib).0) [
        | inl n ↦ (l, read_nothing zero buf t peer e n)
        | inr (bytes_read, n) ↦ absurd (
            omega
              (arith, h, read_lem t.connection.ssl 4096 t.lib l bytes_read (ap (λ o. (o, l)) n)))
      ]
  read_established (suc fuel) buf t peer e d h =
      let l = (openssl.read t.connection.ssl 4096 t.lib).1 in
      let t' : Tls Ssl Bio L = record t { lib = l } in
      elim (Option-cases (openssl.read t.connection.ssl 4096 t.lib).0) [
        | inl n ↦ (l, read_nothing (suc fuel) buf t peer e n)
        | inr (bytes_read, n) ↦
            let less = read_lem t.connection.ssl 4096 t.lib l bytes_read (ap (λ o. (o, l)) n) in
            let (l', r) = read_established fuel bytes_read t' peer e d (omega (arith, less, h)) in
            let u : Tls Ssl Bio L = record t { lib = l' } in
            (
              l',
              read_some (suc fuel) buf bytes_read t u peer e n
                  (again fuel bytes_read (t', peer) u peer d r),
            )
      ]

  read_handshake :
      (fuel : ℕ) (buf : Text) (t : Tls Ssl Bio L) (peer : Peer W)
      → t.connection.state ≡ handshake
      → (u : Tls Ssl Bio L) × (on_read openssl (some (behind fuel)) buf (t, peer)
          ≡ some ([], u, peer))
        × (u.connection.decrypted_buffer ≡ t.connection.decrypted_buffer)
        × ((u.effects ≡ t.effects) ⊎ (u.effects ≡ t.effects ++ shutdown ∷ []))
  unfolding on_read
  read_handshake fuel buf t peer e =
      let t' : Tls Ssl Bio L = record t {
        lib = openssl.bio_write t.connection.read_bio buf t.lib;
      } in
      (
        handle_handshake openssl t',
        ground arith,
        handle_handshake-decrypted t',
        handle_handshake-effects t',
      )

  read_stopped :
      (fuel : ℕ) (buf : Text) (t : Tls Ssl Bio L) (peer : Peer W)
      → (t.connection.state ≡ shut_down) ⊎ (t.connection.state ≡ error)
      → on_read openssl (some (behind fuel)) buf (t, peer) ≡ some (buf, t, peer)
  unfolding on_read
  read_stopped fuel buf t peer (inl e) = ground arith
  read_stopped fuel buf t peer (inr e) = ground arith

  -- Whatever bytes arrive on an encrypted connection: the call ends, with as much fuel as the library
  -- holds bytes, and no request is parsed or answered. The context of the connection and the world of
  -- the handlers are as before, nothing has been sent, and at most the connection is shut down.
  pub receive_unanswered :
      (fuel : ℕ) (buf : Text) (t : Tls Ssl Bio L) (peer : Peer W)
      → t.connection.decrypted_buffer ≡ []
      → held_bytes t.lib ≤ fuel
      → (b : Text) × (u : Tls Ssl Bio L) × (receive openssl regex_match router chain time fuel buf
            (t, peer)
          ≡ some (b, u, peer))
        × (u.connection.decrypted_buffer ≡ [])
        × ((u.effects ≡ t.effects) ⊎ (u.effects ≡ t.effects ++ shutdown ∷ []))
  unfolding receive
  receive_unanswered fuel buf t peer d h = elim (state_cases t.connection.state) [
    | inl (inl e) ↦ let (u, r, k, f) = read_handshake fuel buf t peer e in ([], u, r, k ∙ d, f)
    | inl (inr e) ↦
        let (l, r) = read_established fuel buf t peer e d h in
        (buf, record t { lib = l }, r, d, inl refl)
    | inr e ↦ (buf, t, read_stopped fuel buf t peer e, d, inl refl)
  ]
