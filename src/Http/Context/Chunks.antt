-- ===== src/Http/Context/Chunks.antt =====
-- Bytes that arrive in pieces: what one round makes of a buffer that has more bytes at its end.
use http.Prelude.{
  ℕ, ◌+◌, ◌≤◌, ◌≡◌, ◌⊎◌, refl, Bool, true, false, some, arith, length, take, drop, Bool-cases,
  Option-cases, inl, inr, ltb, ◌++◌, take-append_of_le, drop-append_of_le, length-append,
}
use http.Std.Text.{Text, cut, find, find_bound, find-append, codes, is_empty}
use http.Std.Number.{IntResult, stoi, value, negative, invalid_argument, out_of_range, to_unsigned}
use http.Http.Buffer.{bytes, crlf}
use http.Http.Request.{HttpRequest, get_header}
use http.Http.Context.{
  HttpContext, Step, more, stop, throw, ParseState, expect_request_line, expect_headers,
  expect_body, got_all_state, process_request_line, request_line_done, on_request_line, with_length,
  on_content_length, on_end_of_headers, on_header_line, on_header, on_body, round_of, has_body,
}

-- The round leaves `s` behind its buffer.
abbrev pub grow : Text → Step Text → Step Text
grow s (more c b) = more c (b ++ s)
grow s (stop ok c b) = stop ok c (b ++ s)
grow s (throw c b) = throw c (b ++ s)

-- The parser does not wait for more bytes.
abbrev pub IsFinal : Step Text → Type 0
IsFinal (stop true c b) = c.state ≡ got_all_state
IsFinal (stop false c b) = Unit
IsFinal (more c b) = Unit
IsFinal (throw c b) = Unit

abbrev pub Grown : Text → Step Text → Step Text → Type 0
Grown s x y = (y ≡ grow s x) × IsFinal x

module _ (s : Text) where
  request_line_done-Grown :
      (time : ℕ) (c : HttpContext) (r : Bool × HttpRequest) (b b' : Text)
      → Grown s
          (request_line_done bytes time c r b b')
          (request_line_done bytes time c r (b ++ s) (b' ++ s))
  unfolding request_line_done
  request_line_done-Grown time c (true, r) b b' = (refl, tt)
  request_line_done-Grown time c (false, r) b b' = (refl, tt)

  with_length-Grown :
      (n : ℕ) (c : HttpContext) (b : Text)
      → Grown s (with_length bytes n c b) (with_length bytes n c (b ++ s))
  unfolding with_length
  with_length-Grown n c b = elim (Bool-cases (ltb 0 n)) [
    | inl e ↦ rw e (refl, tt)
    | inr e ↦ rw e (refl, refl)
  ]

  on_content_length-Grown :
      (r : IntResult) (c : HttpContext) (b b' : Text)
      → Grown s (on_content_length bytes r c b b') (on_content_length bytes r c (b ++ s) (b' ++ s))
  unfolding on_content_length
  on_content_length-Grown invalid_argument c b b' = (refl, tt)
  on_content_length-Grown out_of_range c b b' = (refl, tt)
  on_content_length-Grown (value n) c b b' = with_length-Grown (to_unsigned 64 (value n)) c b'
  on_content_length-Grown (negative n) c b b' = with_length-Grown (to_unsigned 64 (negative n)) c b'

  on_end_of_headers-Grown :
      (c : HttpContext) (b b' : Text)
      → Grown s (on_end_of_headers bytes c b b') (on_end_of_headers bytes c (b ++ s) (b' ++ s))
  unfolding on_end_of_headers
  on_end_of_headers-Grown c b b' = elim (Bool-cases (has_body c.request.method)) [
    | inr e ↦ rw e (refl, refl)
    | inl e ↦ elim (Bool-cases (is_empty (get_header (codes "Content-Length") c.request))) [
      | inl f ↦ rw (e, f) (refl, tt)
      | inr f ↦
          rw (e, f)
            (on_content_length-Grown (stoi (get_header (codes "Content-Length") c.request)) c b b')
    ]
  ]

  on_header_line-Grown :
      (c : HttpContext) (line b b' : Text)
      → Grown s (on_header_line bytes c line b b') (on_header_line bytes c line (b ++ s) (b' ++ s))
  unfolding on_header_line
  on_header_line-Grown c line b b' = elim (Option-cases (cut b':' line)) [
    | inr (p, e) ↦ rw (e, on_header_line) (refl, tt)
    | inl e ↦ elim (Bool-cases (is_empty line)) [
      | inl f ↦ rw (e, on_header_line, f) (on_end_of_headers-Grown c b b')
      | inr f ↦ rw (e, on_header_line, f) (refl, tt)
    ]
  ]

  -- The parser waits, or the bytes behind change nothing but what it leaves.
  abbrev pub Continues : (Text → Step Text) → HttpContext → Text → Type 0
  Continues f c b = (f b ≡ stop true c b) ⊎ Grown s (f b) (f (b ++ s))

  module _ (b : Text) {k : ℕ} (e : find crlf b ≡ some k) where
    take-append_line : take k (b ++ s) ≡ take k b
    take-append_line = take-append_of_le k b s (omega (arith, find_bound crlf b e))

    drop-append_line : drop (k + 2) (b ++ s) ≡ drop (k + 2) b ++ s
    drop-append_line = drop-append_of_le (k + 2) b s (find_bound crlf b e)

  on_request_line-Continues :
      (time : ℕ) (c : HttpContext) (b : Text) → Continues (on_request_line bytes time c) c b
  unfolding on_request_line
  on_request_line-Continues time c b = elim (Option-cases (find crlf b)) [
    | inl e ↦ inl (rw (e, on_request_line))
    | inr (k, e) ↦ inr (
        rw (e, on_request_line, find-append crlf b s e, take-append_line b e, drop-append_line b e)
          (request_line_done-Grown time c (process_request_line (take k b) c.request) b
            (drop (k + 2) b)))
  ]

  on_header-Continues : (c : HttpContext) (b : Text) → Continues (on_header bytes c) c b
  unfolding on_header
  on_header-Continues c b = elim (Option-cases (find crlf b)) [
    | inl e ↦ inl (rw (e, on_header))
    | inr (k, e) ↦ inr (
        rw (e, on_header, find-append crlf b s e, take-append_line b e, drop-append_line b e)
          (on_header_line-Grown c (take k b) b (drop (k + 2) b)))
  ]

  on_body-Continues : (c : HttpContext) (b : Text) → Continues (on_body bytes c) c b
  unfolding on_body
  on_body-Continues c b =
      let n = c.request.content_length in
      elim (Bool-cases (ltb (length b) n)) [
        | inl e ↦ inl (rw e)
        | inr e ↦
            let le : n ≤ length b = ground arith in
            let e' : ltb (length (b ++ s)) n ≡ false = ground (arith, length-append b s) in
            inr (rw (e, e', take-append_of_le n b s le, drop-append_of_le n b s le) (refl, refl))
      ]

  pub round_of-Continues :
      (state : ParseState) (time : ℕ) (c : HttpContext) (b : Text)
      → Continues (round_of bytes state time c) c b
  unfolding round_of
  round_of-Continues expect_request_line time c b = on_request_line-Continues time c b
  round_of-Continues expect_headers time c b = on_header-Continues c b
  round_of-Continues expect_body time c b = on_body-Continues c b
  round_of-Continues got_all_state time c b = inr (refl, tt)
