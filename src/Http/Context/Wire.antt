-- ===== src/Http/Context/Wire.antt =====
-- A request as it is written on the wire, and what the parser makes of it.
use http.Prelude.{
  lt→ltb, drop-length-append, ◌^◌, length-append, list_beq, ◌%◌, ltb, ℕ, suc, ◌+◌, ◌≤◌, ◌<◌, ◌≡◌,
  ◌≢◌, refl, ◌∙◌, Bool, true, false, Option, some, arith, length, drop, ◌++◌, List, [], ◌∷◌, foldl,
  All, take-length-append,
}
use http.Std.Text.{Text, codes, cut, find, starts_with, Lacks, cut-append}
use http.Std.Number.{stoi-to_string_self, is_empty-to_string, to_string}
use http.Http.Buffer.{bytes, crlf}
use http.Http.Request.{
  HttpRequest, method_of, set_method, set_version, set_receive_time, set_content_length, set_body,
  add_header, get_header, is_invalid,
}
use http.Http.Context.{
  HttpContext, more, stop, expect_request_line, expect_headers, expect_body, got_all_state,
  round_of, on_request_line, on_header, on_header_line, on_end_of_headers, on_body,
  on_content_length, with_length, request_line_done, process_request_line, read_target,
  read_version, parse_request, parse_loop, after_round, Parsed, returned, has_body, received,
}
use http.Http.Context.Rounds.{round_of-Goes}
use http.Http.Context.Loop.{parse_loop_same}

abbrev pub line : Text → Text → Text
line s rest = s ++ 13 ∷ 10 ∷ rest

find-line : (s rest : Text) → Lacks 13 s → find crlf (line s rest) ≡ some (length s)
unfolding find starts_with
find-line [] rest h = refl
find-line (x ∷ s) rest (n, h) = ground (arith, find-line s rest h)

drop-line : (s rest : Text) → drop (length s + 2) (line s rest) ≡ rest
drop-line [] rest = refl
drop-line (x ∷ s) rest =
    let e : suc (length s) + 2 ≡ suc (length s + 2) = omega arith in rw e (drop-line s rest)

parse_request-more :
    (time : ℕ) (c c' : HttpContext) (b b' : Text)
    → c.state ≢ got_all_state
    → round_of bytes c.state time c b ≡ more c' b'
    → parse_request bytes time c b ≡ parse_request bytes time c' b'
unfolding parse_request parse_loop after_round
parse_request-more time c c' b b' h e =
    let (l, h') = rw e at (round_of-Goes c.state time c b {n = length b} refl h (omega arith)) in
    rw e (parse_loop_same (length b) (suc (length b')) time c' b' l (omega arith) h')

parse_request-stop :
    (time : ℕ) (ok : Bool) (c c' : HttpContext) (b b' : Text)
    → round_of bytes c.state time c b ≡ stop ok c' b'
    → parse_request bytes time c b
      ≡ some (record { verdict = returned ok; context = c'; buffer = b' })
unfolding parse_request parse_loop after_round
parse_request-stop time ok c c' b b' e = rw e

abbrev pub in_headers : HttpRequest → HttpContext
in_headers r = record { state = expect_headers; request = r }

abbrev pub finished : HttpRequest → Text → Option (Parsed Text)
finished r rest = some (record {
  verdict = returned true;
  context = record { state = got_all_state; request = r };
  buffer = rest;
})

-- A header line: a key with no colon, then whatever follows the colon.
abbrev pub header_text : Text × Text → Text
header_text p = p.0 ++ b':' ∷ p.1

abbrev pub IsHeader : Text × Text → Type 0
IsHeader p = Lacks b':' p.0 × Lacks 13 (header_text p)

-- The header lines, the empty line, and what follows them.
abbrev pub header_block : List (Text × Text) → Text → Text
header_block [] rest = line [] rest
header_block (p ∷ hs) rest = line (header_text p) (header_block hs rest)

abbrev pub add_line : HttpRequest → Text × Text → HttpRequest
add_line r p = add_header p.0 p.1 r

header_round :
    (r : HttpRequest) (p : Text × Text) (rest : Text)
    → IsHeader p
    → on_header bytes (in_headers r) (line (header_text p) rest)
      ≡ more (in_headers (add_line r p)) rest
unfolding on_header
header_round r p rest (colon, no_return) =
    rw
      (
        find-line (header_text p) rest no_return,
        on_header,
        take-length-append (header_text p) (13 ∷ 10 ∷ rest),
        drop-line (header_text p) rest,
      )
      (unfold on_header_line in rw (cut-append b':' p.0 p.1 colon, on_header_line))

parse_headers :
    (time : ℕ) (hs : List (Text × Text)) (r : HttpRequest) (rest : Text)
    → All IsHeader hs
    → parse_request bytes time (in_headers r) (header_block hs rest)
      ≡ parse_request bytes time (in_headers (foldl add_line r hs)) (line [] rest)
unfolding round_of
parse_headers time [] r rest h = refl
parse_headers time (p ∷ hs) r rest (h, k) =
    parse_request-more time (in_headers r) (in_headers (add_line r p))
      (line (header_text p) (header_block hs rest)) (header_block hs rest) (λ e. cc e)
      (header_round r p (header_block hs rest) h)
    ∙ parse_headers time hs (add_line r p) rest k

end_round :
    (r : HttpRequest) (rest : Text)
    → on_header bytes (in_headers r) (line [] rest)
      ≡ on_end_of_headers bytes (in_headers r) (line [] rest) rest
unfolding on_header on_header_line find starts_with cut
end_round r rest = refl

-- The end of the headers of a request with no body.
parse_end :
    (time : ℕ) (r : HttpRequest) (rest : Text)
    → has_body r.method ≡ false
    → parse_request bytes time (in_headers r) (line [] rest) ≡ finished r rest
unfolding round_of
parse_end time r rest h =
    parse_request-stop time true (in_headers r) (received (in_headers r)) (line [] rest) rest
      (end_round r rest ∙ (unfold on_end_of_headers in rw h))

body_round :
    (r : HttpRequest) (body rest : Text)
    → on_body bytes
        (record { state = expect_body; request = set_content_length (length body) r })
        (body ++ rest)
      ≡ stop true
          (record {
            state = got_all_state;
            request = set_body body (set_content_length (length body) r);
          })
          rest
unfolding on_body
body_round r body rest =
    let e : ltb (length (body ++ rest)) (length body) ≡ false =
      ground (arith, length-append body rest) in
    rw (e, take-length-append body rest, drop-length-append body rest)

length_round :
    (r : HttpRequest) (n : ℕ) (b b' : Text)
    → has_body r.method ≡ true
    → get_header (codes "Content-Length") r ≡ to_string n
    → 0 < n
    → n ≤ 2147483647
    → on_end_of_headers bytes (in_headers r) b b'
      ≡ more (record { state = expect_body; request = set_content_length n r }) b'
unfolding on_end_of_headers on_content_length with_length
length_round r n b b' h k pos bound =
    let e : n % 2 ^ 64 ≡ n = omega arith in
    rw (h, k, is_empty-to_string n, stoi-to_string_self n bound, e, lt→ltb 0 n pos)

-- The end of the headers of a request with a body of the length that its headers tell.
parse_end_body :
    (time : ℕ) (r : HttpRequest) (body rest : Text)
    → has_body r.method ≡ true
    → get_header (codes "Content-Length") r ≡ to_string (length body)
    → 0 < length body
    → length body ≤ 2147483647
    → parse_request bytes time (in_headers r) (line [] (body ++ rest))
      ≡ finished (set_body body (set_content_length (length body) r)) rest
unfolding round_of
parse_end_body time r body rest h k pos bound =
    let c' : HttpContext = record {
      state = expect_body;
      request = set_content_length (length body) r;
    } in
    parse_request-more time (in_headers r) c' (line [] (body ++ rest)) (body ++ rest) (λ e. cc e)
      (end_round r (body ++ rest)
        ∙ length_round r (length body) (line [] (body ++ rest)) (body ++ rest) h k pos bound)
    ∙ parse_request-stop time true c' (received (record c' { request = set_body body c'.request }))
        (body ++ rest) rest (body_round r body rest)

-- `HTTP/1.1`, or else `HTTP/1.0`
abbrev pub version_text : Bool → Text
version_text true = codes "HTTP/1.1"
version_text false = codes "HTTP/1.0"

abbrev pub request_line : Text → Text → Bool → Text
request_line m target one_one = m ++ b' ' ∷ (target ++ b' ' ∷ version_text one_one)

-- The request that the request line makes of `r`.
abbrev pub line_request : HttpRequest → ℕ → Text → Text → Bool → HttpRequest
line_request r time m target one_one =
    set_receive_time time
      (set_version (version_text one_one) (read_target target (record r { method = method_of m })))

read_version-version_text :
    (v : Bool) (r : HttpRequest)
    → read_version (version_text v) r ≡ (true, set_version (version_text v) r)
unfolding read_version list_beq
read_version-version_text true r = refl
read_version-version_text false r = refl

process_request_line-request_line :
    (r : HttpRequest) (m target : Text) (v : Bool)
    → is_invalid (method_of m) ≡ false
    → Lacks b' ' m
    → Lacks b' ' target
    → process_request_line (request_line m target v) r ≡ (
      true,
      set_version (version_text v) (read_target target (record r { method = method_of m })),
    )
unfolding process_request_line set_method
process_request_line-request_line r m target v valid h k =
    rw
      (
        cut-append b' ' m (target ++ b' ' ∷ version_text v) h,
        process_request_line,
        valid,
        cut-append b' ' target (version_text v) k,
      )
      (read_version-version_text v (read_target target (record r { method = method_of m })))

-- A parser that expects a request line, over the fields of `r`.
abbrev pub fresh : HttpRequest → HttpContext
fresh r = record { state = expect_request_line; request = r }

request_line_round :
    (r : HttpRequest) (time : ℕ) (m target : Text) (v : Bool) (rest : Text)
    → is_invalid (method_of m) ≡ false
    → Lacks b' ' m
    → Lacks b' ' target
    → Lacks 13 (request_line m target v)
    → on_request_line bytes time (fresh r) (line (request_line m target v) rest)
      ≡ more (in_headers (line_request r time m target v)) rest
unfolding on_request_line
request_line_round r time m target v rest valid h k no_return =
    let text = request_line m target v in
    rw
      (
        find-line text rest no_return,
        on_request_line,
        take-length-append text (13 ∷ 10 ∷ rest),
        drop-line text rest,
        process_request_line-request_line r m target v valid h k,
      )
      (unfold request_line_done in refl)

-- A request on the wire: its line, its header lines, the empty line, and what follows.
abbrev pub wire : Text → Text → Bool → List (Text × Text) → Text → Text
wire m target v hs rest = line (request_line m target v) (header_block hs rest)

-- The request that the line and the headers make of `r`.
abbrev pub wire_request : HttpRequest → ℕ → Text → Text → Bool → List (Text × Text) → HttpRequest
wire_request r time m target v hs = foldl add_line (line_request r time m target v) hs

pub record IsWire (m target : Text) (v : Bool) (hs : List (Text × Text)) : Type 0 where
  pub valid : is_invalid (method_of m) ≡ false
  pub method : Lacks b' ' m
  pub target_space : Lacks b' ' target
  pub no_return : Lacks 13 (request_line m target v)
  pub headers : All IsHeader hs

parse_to_end :
    (r : HttpRequest) (time : ℕ) (m target : Text) (v : Bool) (hs : List (Text × Text))
    (rest : Text)
    → IsWire m target v hs
    → parse_request bytes time (fresh r) (wire m target v hs rest)
      ≡ parse_request bytes time (in_headers (wire_request r time m target v hs)) (line [] rest)
unfolding round_of
parse_to_end r time m target v hs rest w =
    parse_request-more time (fresh r) (in_headers (line_request r time m target v))
      (wire m target v hs rest) (header_block hs rest) (λ e. cc e)
      (request_line_round r time m target v (header_block hs rest) w.valid w.method w.target_space
        w.no_return)
    ∙ parse_headers time hs (line_request r time m target v) rest w.headers

-- A request without a body, as it is written on the wire, for a parser that expects a request line:
-- it returns what the line and the headers make of its request, is finished, and leaves the bytes
-- that follow.
pub parse_request-wire :
    (r : HttpRequest) (time : ℕ) (m target : Text) (v : Bool) (hs : List (Text × Text))
    (rest : Text)
    → IsWire m target v hs
    → has_body (wire_request r time m target v hs).method ≡ false
    → parse_request bytes time (fresh r) (wire m target v hs rest)
      ≡ finished (wire_request r time m target v hs) rest
parse_request-wire r time m target v hs rest w h =
    parse_to_end r time m target v hs rest w
    ∙ parse_end time (wire_request r time m target v hs) rest h

-- A POST or PUT request whose Content-Length header is the length of its body, which is positive
-- and an int: the request gets exactly that body, and the bytes behind it stay in the buffer.
pub parse_request-wire_body :
    (r : HttpRequest) (time : ℕ) (m target : Text) (v : Bool) (hs : List (Text × Text))
    (body rest : Text)
    → IsWire m target v hs
    → has_body (wire_request r time m target v hs).method ≡ true
    → get_header (codes "Content-Length") (wire_request r time m target v hs)
      ≡ to_string (length body)
    → 0 < length body
    → length body ≤ 2147483647
    → parse_request bytes time (fresh r) (wire m target v hs (body ++ rest))
      ≡ finished
          (set_body body (set_content_length (length body) (wire_request r time m target v hs)))
          rest
parse_request-wire_body r time m target v hs body rest w h k pos bound =
    parse_to_end r time m target v hs (body ++ rest) w
    ∙ parse_end_body time (wire_request r time m target v hs) body rest h k pos bound
