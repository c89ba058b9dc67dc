-- ===== src/Http/Context/Asserts.antt =====
-- The assertion of setMethod: a parser that meets it goes on to meet it, unless it fails.
use http.Prelude.{
  ℕ, zero, suc, ◌+◌, ◌≡◌, ap, refl, subst, Bool, true, false, Option, some, of_some, Bool-cases,
  Option-cases, inl, inr, length, take, ltb,
}
use http.Std.Text.{Text, codes, cut, is_empty}
use http.Std.Number.{IntResult, value, negative, invalid_argument, out_of_range, stoi, to_unsigned}
use http.Http.Buffer.{Buffer}
use http.Http.Request.{HttpRequest, get_header}
use http.Http.Context.{
  HttpContext, method_unset, Step, more, stop, throw, ParseState, expect_request_line,
  expect_headers, expect_body, got_all_state, process_request_line, request_line_done,
  on_request_line, with_length, on_content_length, on_end_of_headers, on_header_line, on_header,
  on_body, round_of, has_body, after_round, parse_loop, parse_request, Parsed, returned,
}

-- The assertion holds where the parser goes on, and where it leaves without a failure.
abbrev pub Keeps : {B : Type 0} → Step B → Type 0
Keeps (more c b) = method_unset c ≡ true
Keeps (stop true c b) = method_unset c ≡ true
Keeps (stop false c b) = Unit
Keeps (throw c b) = Unit

-- Only a parser that expects a request line has something to keep.
unset_elsewhere : (c : HttpContext) → c.state ≡ expect_headers → method_unset c ≡ true
unfolding method_unset
unset_elsewhere c e = rw e refl

module _ (api : Buffer) where
  with_length-Keeps : (n : ℕ) (c : HttpContext) (b : api.Buf) → Keeps (with_length api n c b)
  unfolding with_length method_unset
  with_length-Keeps n c b = elim (Bool-cases (ltb 0 n)) [ inl e ↦ rw e refl | inr e ↦ rw e refl ]

  on_content_length-Keeps :
      (r : IntResult) (c : HttpContext) (b b' : api.Buf) → Keeps (on_content_length api r c b b')
  unfolding on_content_length
  on_content_length-Keeps invalid_argument c b b' = tt
  on_content_length-Keeps out_of_range c b b' = tt
  on_content_length-Keeps (value n) c b b' = with_length-Keeps (to_unsigned 64 (value n)) c b'
  on_content_length-Keeps (negative n) c b b' = with_length-Keeps (to_unsigned 64 (negative n)) c b'

  on_end_of_headers-Keeps :
      (c : HttpContext) (b b' : api.Buf) → Keeps (on_end_of_headers api c b b')
  unfolding on_end_of_headers method_unset
  on_end_of_headers-Keeps c b b' = elim (Bool-cases (has_body c.request.method)) [
    | inr e ↦ rw e refl
    | inl e ↦ elim (Bool-cases (is_empty (get_header (codes "Content-Length") c.request))) [
      | inl f ↦ rw (e, f) tt
      | inr f ↦
          rw (e, f)
            (on_content_length-Keeps (stoi (get_header (codes "Content-Length") c.request)) c b b')
    ]
  ]

  on_header_line-Keeps :
      (c : HttpContext) (line : Text) (b b' : api.Buf)
      → c.state ≡ expect_headers
      → Keeps (on_header_line api c line b b')
  unfolding on_header_line
  on_header_line-Keeps c line b b' s = elim (Option-cases (cut b':' line)) [
    | inr (p, e) ↦ rw (e, on_header_line) (unset_elsewhere (record c { request = _ }) s)
    | inl e ↦ elim (Bool-cases (is_empty line)) [
      | inl f ↦ rw (e, on_header_line, f) (on_end_of_headers-Keeps c b b')
      | inr f ↦ rw (e, on_header_line, f) tt
    ]
  ]

  on_header-Keeps :
      (c : HttpContext) (b : api.Buf) → c.state ≡ expect_headers → Keeps (on_header api c b)
  unfolding on_header
  on_header-Keeps c b s = elim (Option-cases (api.find_crlf b)) [
    | inl e ↦ rw (e, on_header) (unset_elsewhere c s)
    | inr (k, e) ↦
        rw (e, on_header)
          (on_header_line-Keeps c (take k (api.readable b)) b (api.retrieve (k + 2) b) s)
  ]

  request_line_done-Keeps :
      (time : ℕ) (c : HttpContext) (r : Bool × HttpRequest) (b b' : api.Buf)
      → Keeps (request_line_done api time c r b b')
  unfolding request_line_done method_unset
  request_line_done-Keeps time c (true, r) b b' = refl
  request_line_done-Keeps time c (false, r) b b' = tt

  on_request_line-Keeps :
      (time : ℕ) (c : HttpContext) (b : api.Buf)
      → method_unset c ≡ true
      → Keeps (on_request_line api time c b)
  unfolding on_request_line
  on_request_line-Keeps time c b h = elim (Option-cases (api.find_crlf b)) [
    | inl e ↦ rw (e, on_request_line) h
    | inr (k, e) ↦
        rw (e, on_request_line)
          (request_line_done-Keeps time c (process_request_line (take k (api.readable b)) c.request)
            b (api.retrieve (k + 2) b))
  ]

  on_body-Keeps : (c : HttpContext) (b : api.Buf) → method_unset c ≡ true → Keeps (on_body api c b)
  unfolding on_body method_unset
  on_body-Keeps c b h = elim (Bool-cases (ltb (length (api.readable b)) c.request.content_length)) [
    | inl e ↦ rw e h
    | inr e ↦ rw e refl
  ]

  -- So the assertion holds at the start of every round.
  pub round_of-Keeps :
      (state : ParseState) (time : ℕ) (c : HttpContext) (b : api.Buf)
      → c.state ≡ state
      → method_unset c ≡ true
      → Keeps (round_of api state time c b)
  unfolding round_of
  round_of-Keeps expect_request_line time c b e h = on_request_line-Keeps time c b h
  round_of-Keeps expect_headers time c b e h = on_header-Keeps c b e
  round_of-Keeps expect_body time c b e h = on_body-Keeps c b h
  round_of-Keeps got_all_state time c b e h = h

  -- A result without a failure meets the assertion.
  abbrev IsKept : Option (Parsed api.Buf) → Type 0
  IsKept o =
      (p : Parsed api.Buf) → o ≡ some p → p.verdict ≡ returned true → method_unset p.context ≡ true

  after_round-IsKept :
      (rest : HttpContext → api.Buf → Option (Parsed api.Buf))
      → ((c : HttpContext) (b : api.Buf) → method_unset c ≡ true → IsKept (rest c b))
      → (s : Step api.Buf) → Keeps s
      → IsKept (after_round rest s)
  unfolding after_round
  after_round-IsKept rest h (more c b) k p q v = h c b k p q v
  after_round-IsKept rest h (stop true c b) k p q v =
      subst (λ (x : Parsed api.Buf). method_unset x.context ≡ true) (of_some q) k
  after_round-IsKept rest h (stop false c b) k p q v =
      absurd (cc (ap (λ (x : Parsed api.Buf). x.verdict) (of_some q)))
  after_round-IsKept rest h (throw c b) k p q v =
      absurd (cc (ap (λ (x : Parsed api.Buf). x.verdict) (of_some q)))

  parse_loop-IsKept :
      (fuel time : ℕ) (c : HttpContext) (b : api.Buf)
      → method_unset c ≡ true
      → IsKept (parse_loop api fuel time c b)
  unfolding parse_loop
  parse_loop-IsKept zero time c b h = λ p q v. absurd (cc q)
  parse_loop-IsKept (suc fuel) time c b h =
      after_round-IsKept (parse_loop api fuel time) (parse_loop-IsKept fuel time)
        (round_of api c.state time c b) (round_of-Keeps c.state time c b refl h)

  pub parse_request-unset :
      (time : ℕ) (c : HttpContext) (b : api.Buf) (p : Parsed api.Buf)
      → method_unset c ≡ true
      → parse_request api time c b ≡ some p
      → p.verdict ≡ returned true
      → method_unset p.context ≡ true
  unfolding parse_request
  parse_request-unset time c b p h e v =
      parse_loop-IsKept (suc (length (api.readable b))) time c b h p e v
