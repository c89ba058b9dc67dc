-- ===== src/Http/Examples.antt =====
-- Tests of the parser and the server, and the theorems at concrete inputs.
use mathlib.Core.Option
use http.Prelude.{text_eq, ◌≡◌, refl, true, false, List, [], ◌∷◌, ◌++◌, some, arith, list_beq}
use http.Std.Text.{Text, codes, cut, find, starts_with, split, isspace, isdigit}
use http.Std.Number.{skip_space, to_string, stoi, read_digits}
use http.Std.Map.{lookup, insert, insert_sorted, compare_text}
use http.Http.Buffer.{bytes, bytes-BufferLaws}
use http.Http.Request.{
  set_content_length, set_body, HttpRequest, Method, new_request, method_of, set_method,
  set_query_parameters, add_pair, add_header, trim_end, get_query_parameters, swap, or_empty,
}
use http.Http.Request.Query.{encode, last_value, set_query_parameters-encode}
use http.Http.Context.{
  HttpContext, new_context, got_all_state, expect_headers, reset, parse_request, parse_loop, Parsed,
  Verdict, returned, threw, read_version, read_target, process_request_line, after_round,
  request_line_done, on_request_line, with_length, on_content_length, on_end_of_headers,
  on_header_line, on_header, on_body, round_of,
}
use http.Http.Context.Readable.{view}
use http.Http.Context.Loop.{parse_request-append_waiting, parse_request-append_done}
use http.Http.Context.Wire.{
  wire, wire_request, finished, IsWire, parse_request-wire, parse_request-wire_body, fresh,
}
use http.Http.Context.Reset.{parse_request-reset_content}

-- all that a run of the parser computes with
parser : Unit {0}
unfolding cut find starts_with split isspace isdigit skip_space to_string stoi read_digits lookup
    insert insert_sorted compare_text method_of set_method set_query_parameters add_pair add_header
    trim_end swap read_version read_target process_request_line after_round request_line_done
    on_request_line with_length on_content_length on_end_of_headers on_header_line on_header on_body
    round_of parse_loop parse_request reset list_beq encode last_value
parser = tt

abbrev nl : Text
nl = 13 ∷ 10 ∷ []

abbrev pairs : List (Text × Text)
pairs = (codes "a", codes "1") ∷ (codes "b", codes "x=y") ∷ (codes "a", codes "2") ∷ []

encode_test : encode pairs ≡ codes "a=1&b=x=y&a=2"
unfolding parser
encode_test = refl

set_query_parameters-encode_example :
    get_query_parameters (codes "a") (set_query_parameters (encode pairs) new_request)
    ≡ or_empty (last_value (codes "a") (lookup (codes "a") new_request.query_parameters) pairs)
set_query_parameters-encode_example =
    set_query_parameters-encode pairs new_request (codes "a") (omega arith)

abbrev get_s : Text
get_s = codes "GET /s/abc?q=1 HTTP/1.1" ++ nl ++ codes "Host:  h " ++ nl ++ nl

get_s_test :
    Option.map {A = Parsed Text} {B = Verdict × Text × List (Text × Text) × Text}
      (λ p. (p.verdict, p.context.request.path, p.context.request.headers, p.buffer))
      (parse_request bytes 7 new_context (get_s ++ codes "GET"))
    ≡ some (returned true, codes "/s/abc", (codes "Host", codes "h") ∷ [], codes "GET")
unfolding parser
get_s_test = refl

-- the first bytes of a request, and where the parser waits behind them
abbrev first : Text
first = codes "GET / HTTP/1.0" ++ nl ++ codes "Ho"

abbrev first_request : HttpRequest
first_request = record new_request {
  method = Method.get;
  path = codes "/";
  version = codes "HTTP/1.0";
  receive_time = 7;
}

abbrev first_parsed : Parsed Text
first_parsed = record {
  verdict = returned true;
  context = record { state = expect_headers; request = first_request };
  buffer = codes "Ho";
}

first_test : parse_request bytes 7 new_context first ≡ some first_parsed
unfolding parser
first_test = refl

parse_request-append_waiting_example :
    Option.map (view (λ b. b)) (parse_request bytes 7 new_context (first ++ codes "st"))
    ≡ Option.map
        (view (λ b. b))
        (parse_request bytes 7 first_parsed.context (first_parsed.buffer ++ codes "st"))
parse_request-append_waiting_example =
    parse_request-append_waiting bytes bytes-BufferLaws 7 new_context first (codes "st")
      first_parsed (λ e. cc e) first_test (refl, λ e. cc e)

-- a request line with no version
abbrev bad : Text
bad = codes "GET /" ++ nl

abbrev bad_parsed : Parsed Text
bad_parsed = record {
  verdict = returned false;
  context = record new_context { request = record new_request { method = Method.get } };
  buffer = bad;
}

bad_test : parse_request bytes 7 new_context bad ≡ some bad_parsed
unfolding parser
bad_test = refl

parse_request-append_done_example :
    Option.map (view (λ b. b)) (parse_request bytes 7 new_context (bad ++ codes "x"))
    ≡ some (record (view (λ b. b) bad_parsed) { buffer = bad_parsed.buffer ++ codes "x" })
parse_request-append_done_example =
    parse_request-append_done bytes bytes-BufferLaws 7 new_context bad (codes "x") bad_parsed
      (λ e. cc e) bad_test (λ w. cc (w.0))

-- a length that is not a number
abbrev put_x : Text
put_x = codes "PUT / HTTP/1.1" ++ nl ++ codes "Content-Length: x" ++ nl ++ nl

abbrev put_x_parsed : Parsed Text
put_x_parsed = record {
  verdict = threw;
  context = record {
    state = expect_headers;
    request = record new_request {
      method = Method.put;
      path = codes "/";
      version = codes "HTTP/1.1";
      receive_time = 7;
      headers = (codes "Content-Length", codes "x") ∷ [];
    };
  };
  buffer = nl;
}

put_x_test : parse_request bytes 7 new_context put_x ≡ some put_x_parsed
unfolding parser
put_x_test = refl

abbrev host : List (Text × Text)
host = (codes "Host", codes " h") ∷ []

get_s-IsWire : IsWire (codes "GET") (codes "/s/abc?q=1") true host
unfolding parser
get_s-IsWire = record {
  valid = refl;
  method = omega arith;
  target_space = omega arith;
  no_return = omega arith;
  headers = omega arith;
}

parse_request-wire_example :
    parse_request bytes 7
      (fresh new_request)
      (wire (codes "GET") (codes "/s/abc?q=1") true host (codes "GET"))
    ≡ finished
        (wire_request new_request 7 (codes "GET") (codes "/s/abc?q=1") true host)
        (codes "GET")
unfolding parser
parse_request-wire_example =
    parse_request-wire new_request 7 (codes "GET") (codes "/s/abc?q=1") true host (codes "GET")
      get_s-IsWire refl

abbrev length_two : List (Text × Text)
length_two = (codes "Content-Length", codes " 2") ∷ []

post-IsWire : IsWire (codes "POST") (codes "/s") false length_two
unfolding parser
post-IsWire = record {
  valid = refl;
  method = omega arith;
  target_space = omega arith;
  no_return = omega arith;
  headers = omega arith;
}

parse_request-wire_body_example :
    parse_request bytes 7
      (fresh new_request)
      (wire (codes "POST") (codes "/s") false length_two (codes "hi" ++ codes "!"))
    ≡ finished
        (set_body (codes "hi") (
          set_content_length 2
            (wire_request new_request 7 (codes "POST") (codes "/s") false length_two)))
        (codes "!")
unfolding parser
parse_request-wire_body_example =
    parse_request-wire_body new_request 7 (codes "POST") (codes "/s") false length_two (codes "hi")
      (codes "!") post-IsWire refl refl (omega arith) (omega arith)

abbrev after_post : HttpContext
after_post = record { state = got_all_state; request = set_body (codes "hi") new_request }

parse_request-reset_content_example :
    (r : HttpRequest) × (parse_request bytes 7
        (reset after_post)
        (wire (codes "GET") (codes "/s/abc?q=1") true host [])
      ≡ finished r [])
    × (r.content ≡ codes "hi")
unfolding parser
parse_request-reset_content_example =
    parse_request-reset_content after_post 7 (codes "GET") (codes "/s/abc?q=1") true host []
      get_s-IsWire refl
