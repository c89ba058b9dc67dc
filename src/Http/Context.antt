-- ===== src/Http/Context.antt =====
-- HttpContext.h and HttpContext.cpp: the incremental parser of a request.
pub mod Readable
pub mod Rounds
pub mod Chunks
pub mod Loop
pub mod Wire
pub mod Reset
pub mod Asserts
use http.Prelude.{
  ℕ, zero, suc, ◌+◌, Bool, true, false, ◌&&◌, Option, none, some, length, take, drop, same, text_eq,
  ltb, ◌==◌, if◌then◌else◌,
}
use http.Std.Text.{Text, codes, cut, is_empty}
use http.Std.Number.{IntResult, value, negative, invalid_argument, out_of_range, stoi, to_unsigned}
use http.Http.Buffer.{Buffer}
use http.Http.Request.{
  HttpRequest, Method, new_request, set_method, set_path, set_query_parameters, set_version,
  set_receive_time, add_header, get_header, set_content_length, set_body, swap, is_invalid,
}

-- HttpContext::HttpRequestParseState
pub data ParseState : Type 0 where
  expect_request_line expect_headers expect_body got_all_state : ParseState

pub record HttpContext : Type 0 where
  pub state : ParseState
  pub request : HttpRequest

abbrev pub new_context : HttpContext
new_context = record { state = expect_request_line; request = new_request }

abbrev pub got_all : HttpContext → Bool
got_all c = elim c.state [ got_all_state ↦ true | _ ↦ false ]

-- assert(method_ == kInvalid) of setMethod, before a request line is parsed. It only stands in builds
-- without NDEBUG; the parser below is the one with it.
unfoldable pub method_unset : HttpContext → Bool
method_unset c = elim c.state [ expect_request_line ↦ is_invalid c.request.method | _ ↦ true ]

unfoldable pub reset : HttpContext → HttpContext
reset c = record { state = expect_request_line; request = swap c.request new_request }

-- The version at the end of the request line: eight bytes, `HTTP/1.` and a digit 0 or 1.
unfoldable pub read_version : Text → HttpRequest → Bool × HttpRequest
read_version v r =
    if (length v == 8) && same (take 7 v) (codes "HTTP/1.")
    then if same (drop 7 v) (codes "1")
      then (true, set_version (codes "HTTP/1.1") r)
      else if same (drop 7 v) (codes "0")
      then (true, set_version (codes "HTTP/1.0") r)
      else (false, r)
    else (false, r)

-- The target of the request line, with or without arguments.
unfoldable pub read_target : Text → HttpRequest → HttpRequest
read_target target r = elim (cut b'?' target) [
  | none ↦ set_path target r
  | some (path, arguments) ↦ set_query_parameters arguments (set_path path r)
]

-- What is set before the line fails stays set.
unfoldable pub process_request_line : Text → HttpRequest → Bool × HttpRequest
process_request_line line r = elim (cut b' ' line) [
  | none ↦ (false, r)
  | some (method, rest) ↦
      let (valid, r') = set_method method r in
      if valid
      then elim (cut b' ' rest) [
        | none ↦ (false, r')
        | some (target, version) ↦ read_version version (read_target target r')
      ]
      else (false, r')
]

-- What one round of the loop in `parseRequest` does: go on, leave with a result, or leave by an
-- exception of std::stoi.
pub data Step (B : Type 0) : Type 0 where
  more : HttpContext → B → Step B
  stop : Bool → HttpContext → B → Step B
  throw : HttpContext → B → Step B

-- How `parseRequest` ends.
pub data Verdict : Type 0 where
  returned : Bool → Verdict
  threw : Verdict

pub record Parsed (B : Type 0) : Type 0 where
  pub verdict : Verdict
  pub context : HttpContext
  pub buffer : B

abbrev pub has_body : Method → Bool
has_body Method.post = true
has_body Method.put = true
has_body _ = false

abbrev pub received : HttpContext → HttpContext
received c = record c { state = got_all_state }

-- The next rounds, or the result of this one.
unfoldable pub after_round :
    {B : Type 0} → (HttpContext → B → Option (Parsed B)) → Step B → Option (Parsed B)
after_round rest (more c b) = rest c b
after_round rest (stop ok c b) = some (record { verdict = returned ok; context = c; buffer = b })
after_round rest (throw c b) = some (record { verdict = threw; context = c; buffer = b })

module _ (api : Buffer) where
  -- the branch for kExpectRequestLine; `b'` is the buffer with the line taken off
  unfoldable pub request_line_done :
      ℕ → HttpContext → Bool × HttpRequest → api.Buf → api.Buf → Step api.Buf
  request_line_done time c (true, r) b b' =
      more (record { state = expect_headers; request = set_receive_time time r }) b'
  request_line_done time c (false, r) b b' = stop false (record c { request = r }) b

  unfoldable pub on_request_line : ℕ → HttpContext → api.Buf → Step api.Buf
  on_request_line time c b = elim (api.find_crlf b) [
    | none ↦ stop true c b
    | some n ↦
        request_line_done time c (process_request_line (take n (api.readable b)) c.request) b
          (api.retrieve (n + 2) b)
  ]

  -- the length of the body, known and stored, decides whether there is one to read
  unfoldable pub with_length : ℕ → HttpContext → api.Buf → Step api.Buf
  with_length length c b =
      let c' = record c { request = set_content_length length c.request } in
      if ltb 0 length then more (record c' { state = expect_body }) b else stop true (received c') b

  -- an exception of std::stoi leaves the line in the buffer
  unfoldable pub on_content_length : IntResult → HttpContext → api.Buf → api.Buf → Step api.Buf
  on_content_length invalid_argument c b b' = throw c b
  on_content_length out_of_range c b b' = throw c b
  on_content_length (value n) c b b' = with_length (to_unsigned 64 (value n)) c b'
  on_content_length (negative n) c b b' = with_length (to_unsigned 64 (negative n)) c b'

  -- the empty line behind the headers
  unfoldable pub on_end_of_headers : HttpContext → api.Buf → api.Buf → Step api.Buf
  on_end_of_headers c b b' =
      let content_length = get_header (codes "Content-Length") c.request in
      if has_body c.request.method
      then if is_empty content_length
        then stop false c b'
        else on_content_length (stoi content_length) c b b'
      else stop true (received c) b'

  -- the branch for kExpectHeaders
  unfoldable pub on_header_line : HttpContext → Text → api.Buf → api.Buf → Step api.Buf
  on_header_line c line b b' = elim (cut b':' line) [
    | some (key, text) ↦ more (record c { request = add_header key text c.request }) b'
    | none ↦ if is_empty line then on_end_of_headers c b b' else stop false c b'
  ]

  unfoldable pub on_header : HttpContext → api.Buf → Step api.Buf
  on_header c b = elim (api.find_crlf b) [
    | none ↦ stop true c b
    | some n ↦ on_header_line c (take n (api.readable b)) b (api.retrieve (n + 2) b)
  ]

  -- the branch for kExpectBody
  unfoldable pub on_body : HttpContext → api.Buf → Step api.Buf
  on_body c b =
      let n = c.request.content_length in
      let body = take n (api.readable b) in
      if ltb (length (api.readable b)) n
      then stop true c b
      else stop true (received (record c { request = set_body body c.request })) (api.retrieve n b)

  -- One round. No branch is for kGotAll, and `hasMore` stays true there.
  unfoldable pub round_of : ParseState → ℕ → HttpContext → api.Buf → Step api.Buf
  round_of expect_request_line time c b = on_request_line time c b
  round_of expect_headers time c b = on_header c b
  round_of expect_body time c b = on_body c b
  round_of got_all_state time c b = more c b

  -- The loop, on fuel: `none` where the fuel does not suffice.
  unfoldable pub parse_loop : ℕ → ℕ → HttpContext → api.Buf → Option (Parsed api.Buf)
  parse_loop zero time c b = none
  parse_loop (suc fuel) time c b = after_round (parse_loop fuel time) (round_of c.state time c b)

  -- A round that goes on takes two bytes off the buffer, so there are not more rounds than bytes.
  unfoldable pub parse_request : ℕ → HttpContext → api.Buf → Option (Parsed api.Buf)
  parse_request time c b = parse_loop (suc (length (api.readable b))) time c b
