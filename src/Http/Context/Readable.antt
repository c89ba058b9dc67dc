-- ===== src/Http/Context/Readable.antt =====
-- The parser over any buffer does what it does over the plain readable bytes.
use mathlib.Core.Option
use http.Prelude.{
  ℕ, zero, suc, ◌+◌, ◌≡◌, refl, Bool, true, false, Option, some, arith, length, take, drop,
  Option-cases, inl, inr,
}
use http.Std.Text.{Text, find, find_bound, codes}
use http.Std.Number.{IntResult, stoi, to_unsigned, value, negative, invalid_argument, out_of_range}
use http.Http.Buffer.{Buffer, BufferLaws, bytes, crlf}
use http.Http.Request.{HttpRequest, get_header}
use http.Http.Context.{
  after_round, HttpContext, Step, more, stop, throw, Parsed, ParseState, expect_request_line,
  expect_headers, expect_body, got_all_state, process_request_line, request_line_done,
  on_request_line, with_length, on_content_length, on_end_of_headers, on_header_line, on_header,
  on_body, round_of, parse_loop, parse_request,
}

abbrev view_step : {B : Type 0} → (B → Text) → Step B → Step Text
view_step f (more c b) = more c (f b)
view_step f (stop ok c b) = stop ok c (f b)
view_step f (throw c b) = throw c (f b)

-- A result of the parser, with the buffer seen as its readable bytes.
abbrev pub view : {B : Type 0} → (B → Text) → Parsed B → Parsed Text
view f p = record { verdict = p.verdict; context = p.context; buffer = f p.buffer }

module _ (api : Buffer) (laws : BufferLaws api) where
  open api use {Buf, readable, retrieve}

  request_line_done-view :
      (time : ℕ) (c : HttpContext) (r : Bool × HttpRequest) (b b' : Buf)
      → view_step readable (request_line_done api time c r b b')
        ≡ request_line_done bytes time c r (readable b) (readable b')
  unfolding request_line_done
  request_line_done-view time c (true, r) b b' = refl
  request_line_done-view time c (false, r) b b' = refl

  with_length-view :
      (n : ℕ) (c : HttpContext) (b : Buf)
      → view_step readable (with_length api n c b) ≡ with_length bytes n c (readable b)
  unfolding with_length
  with_length-view n c b = ground arith

  on_content_length-view :
      (r : IntResult) (c : HttpContext) (b b' : Buf)
      → view_step readable (on_content_length api r c b b')
        ≡ on_content_length bytes r c (readable b) (readable b')
  unfolding on_content_length
  on_content_length-view invalid_argument c b b' = refl
  on_content_length-view out_of_range c b b' = refl
  on_content_length-view (value n) c b b' = with_length-view (to_unsigned 64 (value n)) c b'
  on_content_length-view (negative n) c b b' = with_length-view (to_unsigned 64 (negative n)) c b'

  on_end_of_headers-view :
      (c : HttpContext) (b b' : Buf)
      → view_step readable (on_end_of_headers api c b b')
        ≡ on_end_of_headers bytes c (readable b) (readable b')
  unfolding on_end_of_headers
  on_end_of_headers-view c b b' =
      ground (
        arith,
        on_content_length-view (stoi (get_header (codes "Content-Length") c.request)) c b b',
      )

  on_header_line-view :
      (c : HttpContext) (line : Text) (b b' : Buf)
      → view_step readable (on_header_line api c line b b')
        ≡ on_header_line bytes c line (readable b) (readable b')
  unfolding on_header_line
  on_header_line-view c line b b' = ground (arith, on_end_of_headers-view c b b')

  after_line :
      (b : Buf) {n : ℕ}
      → find crlf (readable b) ≡ some n
      → readable (retrieve (n + 2) b) ≡ drop (n + 2) (readable b)
  after_line b {n} e = laws.readable-retrieve (n + 2) b (find_bound crlf (readable b) e)

  on_request_line-view :
      (time : ℕ) (c : HttpContext) (b : Buf)
      → view_step readable (on_request_line api time c b)
        ≡ on_request_line bytes time c (readable b)
  unfolding on_request_line
  on_request_line-view time c b = elim (Option-cases (find crlf (readable b))) [
    | inl e ↦ ground (arith, laws.find_crlf_lem b)
    | inr (n, e) ↦ ground (
      arith,
      laws.find_crlf_lem b,
      after_line b e,
      request_line_done-view time c (process_request_line (take n (readable b)) c.request) b
          (retrieve (n + 2) b),
    )
  ]

  on_header-view :
      (c : HttpContext) (b : Buf)
      → view_step readable (on_header api c b) ≡ on_header bytes c (readable b)
  unfolding on_header
  on_header-view c b = elim (Option-cases (find crlf (readable b))) [
    | inl e ↦ ground (arith, laws.find_crlf_lem b)
    | inr (n, e) ↦ ground (
      arith,
      laws.find_crlf_lem b,
      after_line b e,
      on_header_line-view c (take n (readable b)) b (retrieve (n + 2) b),
    )
  ]

  on_body-view :
      (c : HttpContext) (b : Buf)
      → view_step readable (on_body api c b) ≡ on_body bytes c (readable b)
  unfolding on_body
  on_body-view c b = ground (arith, laws.readable-retrieve c.request.content_length b)

  round_of-view :
      (state : ParseState) (time : ℕ) (c : HttpContext) (b : Buf)
      → view_step readable (round_of api state time c b) ≡ round_of bytes state time c (readable b)
  unfolding round_of
  round_of-view expect_request_line time c b = on_request_line-view time c b
  round_of-view expect_headers time c b = on_header-view c b
  round_of-view expect_body time c b = on_body-view c b
  round_of-view got_all_state time c b = refl

  after_round-view :
      (rest : HttpContext → Buf → Option (Parsed Buf))
      (rest' : HttpContext → Text → Option (Parsed Text))
      → ((c : HttpContext) (b : Buf) → Option.map (view readable) (rest c b) ≡ rest' c (readable b))
      → (s : Step Buf)
      → Option.map (view readable) (after_round rest s) ≡ after_round rest' (view_step readable s)
  unfolding after_round
  after_round-view rest rest' h (more c b) = h c b
  after_round-view rest rest' h (stop ok c b) = refl
  after_round-view rest rest' h (throw c b) = refl

  parse_loop-view :
      (fuel time : ℕ) (c : HttpContext) (b : Buf)
      → Option.map (view readable) (parse_loop api fuel time c b)
        ≡ parse_loop bytes fuel time c (readable b)
  unfolding parse_loop
  parse_loop-view zero time c b = refl
  parse_loop-view (suc fuel) time c b =
      rw (← round_of-view c.state time c b)
        (after_round-view _ _ (parse_loop-view fuel time) (round_of api c.state time c b))

  pub parse_request-view :
      (time : ℕ) (c : HttpContext) (b : Buf)
      → Option.map (view readable) (parse_request api time c b)
        ≡ parse_request bytes time c (readable b)
  unfolding parse_request
  parse_request-view time c b = parse_loop-view (suc (length (readable b))) time c b
