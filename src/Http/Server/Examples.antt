-- ===== src/Http/Server/Examples.antt =====
-- Tests of the server, and the theorems at concrete inputs.
use mathlib.Core.Option
use http.Prelude.{
  Bool, ◌+◌, ℕ, ◌≡◌, ◌⊎◌, refl, true, false, List, [], ◌∷◌, ◌++◌, Option, none, some, arith, length,
  if◌then◌else◌, list_beq,
}
use http.Std.Text.{c_string, Text, codes, cut, find, starts_with, split, isspace, isdigit}
use http.Std.Number.{skip_space, to_string, stoi, read_digits}
use http.Std.Map.{lookup, insert, insert_sorted, compare_text}
use http.Http.Buffer.{bytes, bytes-BufferLaws}
use http.Http.Request.{
  HttpRequest, Method, new_request, method_of, set_method, set_query_parameters, add_pair,
  add_header, trim_end, swap,
}
use http.Http.Response as Response
use http.Http.Response.{HttpResponse, new_response}
use http.Http.Context.{
  method_unset, new_context, expect_request_line, parse_request, parse_loop, returned, Parsed,
  read_version, read_target, process_request_line, after_round, request_line_done, on_request_line,
  with_length, on_content_length, on_end_of_headers, on_header_line, on_header, on_body, round_of,
  reset,
}
use http.Http.Context.Wire.{wire, wire_request, IsWire}
use http.Http.Server.{
  bad_request, Connection, Handled, Effect, send, on_message, on_request, complete, handle_request,
  after_parse, answer, wants_close, answer_version, add_length, close_old, route_and_after,
  route_or_404, catch_raised,
}
use http.Http.Server.Answers.{
  IsUncaught, complete-length, handle_request_caught, handle_request_blocked, has_length,
}
use http.Http.Server.Messages.{IsLive, on_message_total, on_message-wire}
use http.Exceptions.{unknown_exception, Outcome, Raised, response, std_exception, done, raise}
use http.Router.{Router, route, register_handler}
use http.Middleware.{Middleware, process_before, process_after, after_each, catch_std}

serving : Unit {0}
unfolding cut find starts_with split isspace isdigit skip_space to_string stoi read_digits lookup
    insert insert_sorted compare_text method_of set_method set_query_parameters add_pair add_header
    trim_end swap read_version read_target process_request_line after_round request_line_done
    on_request_line with_length on_content_length on_end_of_headers on_header_line on_header on_body
    round_of parse_loop parse_request reset list_beq on_message on_request complete handle_request
    after_parse answer wants_close answer_version add_length close_old route_and_after route_or_404
    catch_raised route register_handler process_before process_after after_each catch_std
    Response.add_header Response.append_to_buffer c_string Response.version_and_code
    Response.header_lines
serving = tt

abbrev no_match : Text → Text → Option (List Text)
no_match regex path = none

abbrev nl : Text
nl = 13 ∷ 10 ∷ []

-- a handler that counts, and one that throws
abbrev count : HttpRequest → HttpResponse → ℕ → Outcome ℕ HttpResponse
count req resp n =
    done (Response.set_body (to_string n) (Response.set_status_code 200 resp)) (n + 1)

abbrev fail : HttpRequest → HttpResponse → ℕ → Outcome ℕ HttpResponse
fail req resp n = raise (std_exception (codes "no")) (Response.set_status_code 200 resp) (n + 1)

abbrev routes : Router Text ℕ
routes = record {
  handlers =
      (record { method = Method.get; path = codes "/n" }, count)
      ∷ (record { method = Method.get; path = codes "/f" }, fail)
      ∷ [];
  callbacks = [];
  regex_handlers = [];
  regex_callbacks = [];
}

-- a middleware that adds ten, and one that refuses
abbrev ten : Middleware ℕ
ten = record { before = λ req n. done req (n + 10); after = λ resp n. done resp n }

abbrev refuse : Middleware ℕ
refuse = record {
  before =
      λ req n. raise (response (Response.set_status_code 403 (new_response false))) req (n + 1);
  after = λ resp n. done resp n;
}

abbrev get_n : Text
get_n = codes "GET /n HTTP/1.1" ++ nl ++ nl

abbrev conn : Text → Connection Text ℕ
conn b = record { context = new_context; buffer = b; world = 5 }

abbrev answer_15 : Text
answer_15 =
    codes "HTTP/1.1 200 OK"
    ++ nl
    ++ codes "Connection: Keep-Alive"
    ++ nl
    ++ codes "Content-Length: 2"
    ++ nl
    ++ nl
    ++ codes "15"

on_message_test :
    (Option.map {B = List Effect × ℕ}
      (λ h. (h.effects, h.connection.world))
      (on_message bytes no_match routes (some ten ∷ []) 7 (conn get_n)))
    ≡ some (send answer_15 ∷ [], 16)
unfolding serving
on_message_test = refl

-- A bad request line with a valid method: 400, and the assertion would fail at the next message.
bad_line_test :
    (Option.map {B = List Effect × Bool × Text}
      (λ h. (h.effects, method_unset h.connection.context, h.connection.buffer))
      (on_message bytes no_match routes (some ten ∷ []) 7 (conn (codes "GET /" ++ nl))))
    ≡ some (bad_request, false, codes "GET /" ++ nl)
unfolding serving method_unset
bad_line_test = refl

-- A middleware whose exception is neither a response nor a std::exception.
abbrev wild : Middleware ℕ
wild = record {
  before = λ req n. raise unknown_exception req (n + 1);
  after = λ resp n. done resp n;
}

uncaught_test :
    (Option.map {B = Bool}
      (λ h. h.crashed)
      (on_message bytes no_match routes (some wild ∷ []) 7 (conn get_n)))
    ≡ some true
unfolding serving
uncaught_test = refl

on_message_total_example :
    (h : Handled Text ℕ) × (on_message bytes no_match routes (some ten ∷ []) 7 (conn get_n)
      ≡ some h)
    × IsLive h.connection
    × ((method_unset h.connection.context ≡ true)
        ⊎ ((rest : List Effect) × (h.effects ≡ bad_request ++ rest)))
unfolding method_unset
on_message_total_example =
    on_message_total bytes no_match routes (some ten ∷ []) bytes-BufferLaws 7 (conn get_n)
      (λ e. cc e) refl

abbrev waiting : Parsed Text
waiting = record { verdict = returned true; context = new_context; buffer = codes "GET /n" }

waiting_test : parse_request bytes 7 new_context (codes "GET /n") ≡ some waiting
unfolding serving
waiting_test = refl

get_n-IsWire : IsWire (codes "GET") (codes "/n") true []
unfolding serving
get_n-IsWire = record {
  valid = refl;
  method = omega arith;
  target_space = omega arith;
  no_return = omega arith;
  headers = omega arith;
}

-- two requests in one message
on_message-wire_example :
    (h : Handled Text ℕ) × (on_message bytes no_match routes
        (some ten ∷ [])
        7
        (conn (wire (codes "GET") (codes "/n") true [] get_n))
      ≡ some h)
    × (h.effects
        ≡ (on_request no_match routes
            (some ten ∷ [])
            (wire_request new_request 7 (codes "GET") (codes "/n") true [])
            5).value)
    × (h.connection.context.state ≡ expect_request_line)
    × (h.connection.buffer ≡ get_n)
unfolding serving
on_message-wire_example =
    on_message-wire bytes no_match routes (some ten ∷ []) bytes-BufferLaws new_request 7
      (codes "GET") (codes "/n") true [] get_n
      (conn (wire (codes "GET") (codes "/n") true [] get_n)) get_n-IsWire refl refl refl

abbrev answer_hi : HttpResponse
answer_hi = Response.set_body (codes "hi") (Response.set_status_code 200 (new_response false))

abbrev old_get : HttpRequest
old_get = record new_request { method = Method.get; version = codes "HTTP/1.0"; path = codes "/f" }

complete-length_example :
    (Response.get_header (codes "Content-Length") (complete old_get answer_hi) ≡ (
      if has_length answer_hi
      then Response.get_header (codes "Content-Length") answer_hi
      else to_string (length (complete old_get answer_hi).body)))
    × (Response.get_header (codes "Transfer-Encoding") (complete old_get answer_hi)
        ≡ Response.get_header (codes "Transfer-Encoding") answer_hi)
    × ((complete old_get answer_hi).body ≡ codes "hi")
complete-length_example = complete-length old_get answer_hi

abbrev caught_result : Outcome ℕ HttpResponse
caught_result = handle_request no_match routes (some ten ∷ []) old_get (new_response false) 5

abbrev before_result : Outcome ℕ HttpRequest
before_result = process_before (some ten ∷ []) old_get 5

handle_request_caught_example :
    (caught_result.raised ≡ none)
    ⊎ ((e : Raised) × (caught_result.raised ≡ some e)
        × IsUncaught e
        × ((before_result.raised ≡ some e)
            ⊎ ((route_and_after no_match routes
                  (some ten ∷ [])
                  (new_response false)
                  before_result.value
                  before_result.world).raised
                ≡ some e)))
handle_request_caught_example =
    handle_request_caught no_match routes (some ten ∷ []) old_get (new_response false) 5

handle_request_blocked_example :
    handle_request no_match routes
      ((some ten ∷ []) ++ some refuse ∷ some ten ∷ [])
      old_get
      (new_response false)
      5
    ≡ done (Response.set_status_code 403 (new_response false)) 16
unfolding process_before
handle_request_blocked_example =
    handle_request_blocked no_match routes (some ten ∷ []) (some ten ∷ []) refuse old_get
      (new_response false) (Response.set_status_code 403 (new_response false)) 5 refl refl
