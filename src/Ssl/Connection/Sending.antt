-- ===== src/Ssl/Connection/Sending.antt =====
-- What `send` passes on to the TCP connection.
use http.Prelude.{
  append-nil, ℕ, zero, suc, ◌≤◌, ◌<◌, ◌≡◌, ◌⊎◌, inl, inr, refl, sym, ap, ◌∙◌, subst, true, List, [],
  ◌∷◌, ◌++◌, some, arith, if◌then◌else◌, leb, ltb, length, take, drop, length-drop, append_assoc,
}
use http.Std.Text.{Text}
use http.Http.Server.{Effect, send, shutdown}
use http.Ssl.{OpenSsl, established}
use http.Ssl.Connection.{Tls, flush, send_data}

-- A memory BIO is a queue of bytes.
pub record BioLaws {L : Type 0} (openssl : OpenSsl L) : Type 0 where
  pub content : openssl.Bio → L → Text
  pub pending_lem : (b : openssl.Bio) (l : L) → openssl.bio_pending b l ≡ length (content b l)
  pub read_lem :
      (b : openssl.Bio) (n : ℕ) (l : L)
      → 0 < n
      → n ≤ length (content b l)
      → ((openssl.bio_read b n l).0 ≡ some (take n (content b l)))
        × (content b (openssl.bio_read b n l).1 ≡ drop n (content b l))

-- The bytes that have been sent, one after the other.
abbrev pub bytes_of : List Effect → Text
bytes_of [] = []
bytes_of (send s ∷ es) = s ++ bytes_of es
bytes_of (shutdown ∷ es) = bytes_of es

bytes_of-append : (es : List Effect) (s : Text) → bytes_of (es ++ send s ∷ []) ≡ bytes_of es ++ s
bytes_of-append [] s = append-nil s
bytes_of-append (send r ∷ es) s =
    ap (λ t. r ++ t) (bytes_of-append es s) ∙ sym (append_assoc r (bytes_of es) s)
bytes_of-append (shutdown ∷ es) s = bytes_of-append es s

take-drop : (n : ℕ) (xs : Text) → take n xs ++ drop n xs ≡ xs
take-drop zero xs = refl
take-drop (suc n) [] = refl
take-drop (suc n) (x ∷ xs) = ap (λ l. x ∷ l) (take-drop n xs)

empty_of_length : (xs : Text) → length xs ≤ 0 → xs ≡ []
empty_of_length [] h = refl
empty_of_length (x ∷ xs) h = absurd (omega (arith, h))

positive : (n : ℕ) → ltb 0 (suc n) ≡ true
positive n = ground arith

length_cases : (xs : Text) → (length xs ≡ 0) ⊎ ((n : ℕ) × (length xs ≡ suc n))
length_cases [] = inl refl
length_cases (x ∷ xs) = inr (length xs, omega arith)

append_of_nil : (xs : Text) {ys : Text} → ys ≡ [] → xs ++ ys ≡ xs
append_of_nil xs e = ap (λ l. xs ++ l) e ∙ append-nil xs

in_pieces :
    (es : List Effect) (k : ℕ) (xs rest : Text)
    → rest ≡ drop k xs
    → bytes_of (es ++ send (take k xs) ∷ []) ++ rest ≡ bytes_of es ++ xs
in_pieces es k xs rest e =
    ap (λ r. bytes_of (es ++ send (take k xs) ∷ []) ++ r) e
    ∙ ap (λ r. r ++ drop k xs) (bytes_of-append es (take k xs))
    ∙ append_assoc (bytes_of es) (take k xs) (drop k xs)
    ∙ ap (λ r. bytes_of es ++ r) (take-drop k xs)

module _ {L : Type 0} (openssl : OpenSsl L) (laws : BioLaws openssl) where
  open openssl use {Ssl, Bio}
  open laws use {content, pending_lem, read_lem}

  abbrev waits : Tls Ssl Bio L → Text
  waits t = content t.connection.write_bio t.lib

  abbrev piece : ℕ → ℕ
  piece n = if leb n 4096 then n else 4096

  flush_done :
      (fuel : ℕ) (t : Tls Ssl Bio L) → length (waits t) ≡ 0 → flush openssl (suc fuel) t ≡ t
  unfolding flush
  flush_done fuel t h = let p = pending_lem t.connection.write_bio t.lib ∙ h in ground arith

  turned : Tls Ssl Bio L → Text → L → Tls Ssl Bio L
  turned t d l = record t { lib = l; effects = t.effects ++ send d ∷ [] }

  flush_turn :
      (fuel n : ℕ) (t : Tls Ssl Bio L) (d : Text)
      → openssl.bio_pending t.connection.write_bio t.lib ≡ suc n
      → (openssl.bio_read t.connection.write_bio (piece (suc n)) t.lib).0 ≡ some d
      → flush openssl (suc fuel) t
        ≡ flush openssl fuel
            (turned t d (openssl.bio_read t.connection.write_bio (piece (suc n)) t.lib).1)
  unfolding flush turned
  flush_turn fuel n t d p e = rw (p) (rw (e, positive n) refl)

  -- The loop that empties the write BIO ends within as many turns as it holds bytes, and then all
  -- those bytes have been sent, in their order.
  flush_lem :
      (fuel : ℕ) (t : Tls Ssl Bio L)
      → length (waits t) ≤ fuel
      → (content t.connection.write_bio (flush openssl fuel t).lib ≡ [])
        × (bytes_of (flush openssl fuel t).effects ≡ bytes_of t.effects ++ waits t)
  unfolding flush turned
  flush_lem zero t h =
      let e = empty_of_length (waits t) h in (e, sym (append_of_nil (bytes_of t.effects) e))
  flush_lem (suc fuel) t h = elim (length_cases (waits t)) [
    | inl z ↦
        let e = empty_of_length (waits t) (omega (arith, z)) in
        (
          ap (λ u. content t.connection.write_bio u.lib) (flush_done fuel t z) ∙ e,
          ap (λ u. bytes_of u.effects) (flush_done fuel t z)
              ∙ sym (append_of_nil (bytes_of t.effects) e),
        )
    | inr (n, z) ↦
        let b = t.connection.write_bio in
        let k = piece (suc n) in
        let l = (openssl.bio_read b k t.lib).1 in
        let (got, left) = read_lem b k t.lib (ground arith) (ground (arith, z)) in
        let d = take k (waits t) in
        let u = turned t d l in
        let turn = flush_turn fuel n t d (pending_lem b t.lib ∙ z) got in
        let fewer : length (content b l) ≤ fuel =
          ground (arith, ap length left, length-drop k (waits t), z, h) in
        let (none_left, sent) = flush_lem fuel u fewer in
        (
          ap (λ v. content b v.lib) turn ∙ none_left,
          ap (λ v. bytes_of v.effects) turn
              ∙ sent
              ∙ in_pieces t.effects k (waits t) (content b l) left,
        )
  ]

  -- In an established connection where SSL_write succeeds, all that stands in the write BIO behind it
  -- is sent, in its order, and nothing is left there; with as much fuel as there are bytes, the loop
  -- ends.
  pub send_data_lem :
      (fuel : ℕ) (bytes : Text) (t : Tls Ssl Bio L) (l : L)
      → t.connection.state ≡ established
      → openssl.write t.connection.ssl bytes t.lib ≡ (true, l)
      → length (content t.connection.write_bio l) ≤ fuel
      → (content t.connection.write_bio (send_data openssl fuel bytes t).lib ≡ [])
        × (bytes_of (send_data openssl fuel bytes t).effects
            ≡ bytes_of t.effects ++ content t.connection.write_bio l)
  unfolding send_data
  send_data_lem fuel bytes t l e w h =
      let u : Tls Ssl Bio L = record t { lib = l } in
      let sends : send_data openssl fuel bytes t ≡ flush openssl fuel u = ground arith in
      subst
        (λ v.
          (content t.connection.write_bio v.lib ≡ [])
          × (bytes_of v.effects ≡ bytes_of t.effects ++ content t.connection.write_bio l))
        (sym sends) (flush_lem fuel u h)
