-- ===== src/Http/Server.antt =====
-- HttpServer.h and HttpServer.cpp: routing a request through the middlewares, answering it, and the
-- bytes of a connection. Connections are plain here; Ssl/Server has the branches for SSL.
pub mod Answers
pub mod Messages
pub mod Registration
mod Examples
use mathlib.Core.Option
use http.Prelude.{
  is_some, ℕ, Bool, true, false, not, ◌&&◌, ◌||◌, List, [], ◌∷◌, ◌++◌, Option, none, some, same,
  text_eq, if◌then◌else◌, length, ◌==◌,
}
use http.Std.Text.{Text, codes, is_empty}
use http.Std.Number.{to_string}
use http.Http.Request.{HttpRequest, get_header}
use http.Http.Response as Response
use http.Http.Response.{HttpResponse}
use http.Http.Buffer.{Buffer}
use http.Http.Context.{HttpContext, got_all, reset, parse_request, Verdict, returned, threw, Parsed}
use http.Exceptions.{
  Outcome, Raised, response, std_exception, unknown_exception, fault, done, raise,
}
use http.Router.{Router, route}
use http.Middleware.{MiddlewareChain, process_before, process_after}

-- What the server does to a connection, in order.
pub data Effect : Type 0 where
  send : Text → Effect
  shutdown : Effect

abbrev pub not_found : HttpResponse → HttpResponse
not_found r =
    Response.set_close_connection true
      (Response.set_status_message (codes "Not Found") (Response.set_status_code 404 r))

-- defaultHttpCallback
unfoldable pub default_http_callback : HttpRequest → HttpResponse → HttpResponse
default_http_callback req resp = not_found resp

module _ {W : Type 0} where
  -- the two handlers of exceptions in handleRequest; `resp` is the response as it was left
  unfoldable pub catch_raised : Raised → HttpResponse → W → Outcome W HttpResponse
  catch_raised (response res) resp w = done res w
  catch_raised (std_exception what) resp w =
      done (Response.set_body what (Response.set_status_code 500 resp)) w
  catch_raised unknown_exception resp w = raise unknown_exception resp w
  catch_raised fault resp w = raise fault resp w

  abbrev pub catch_all : Outcome W HttpResponse → Outcome W HttpResponse
  catch_all o = elim o.raised [ none ↦ o | some e ↦ catch_raised e o.value o.world ]

abbrev pub reason_of : ℕ → Text
reason_of code =
    if code == 200
    then codes "OK"
    else if code == 301
    then codes "Moved Permanently"
    else if code == 302
    then codes "Found"
    else if code == 400
    then codes "Bad Request"
    else if code == 403
    then codes "Forbidden"
    else if code == 404
    then codes "Not Found"
    else if code == 500
    then codes "Internal Server Error"
    else codes "OK"

-- The request asks for the connection to be closed.
unfoldable pub wants_close : HttpRequest → Bool
wants_close req =
    let connection = get_header (codes "Connection") req in
    same connection (codes "close")
    || (same req.version (codes "HTTP/1.0") && not (same connection (codes "Keep-Alive")))

unfoldable pub answer_version : HttpRequest → Text
answer_version req =
    if same req.version (codes "HTTP/1.0")
    then req.version
    else if same req.version (codes "HTTP/1.1")
    then req.version
    else codes "HTTP/1.1"

unfoldable pub add_length : HttpResponse → HttpResponse
add_length r =
    if is_empty (Response.get_header (codes "Content-Length") r)
      && is_empty (Response.get_header (codes "Transfer-Encoding") r)
    then Response.add_header (codes "Content-Length") (to_string (length r.body)) r
    else r

-- HTTP/1.0 without Keep-Alive closes, and says so in a header.
unfoldable pub close_old : HttpRequest → HttpResponse → HttpResponse
close_old req r =
    let r' = Response.set_close_connection true r in
    if same req.version (codes "HTTP/1.0")
      && not (same (get_header (codes "Connection") req) (codes "Keep-Alive"))
    then if is_empty (Response.get_header (codes "Connection") r')
      then Response.add_header (codes "Connection") (codes "close") r'
      else r'
    else r

-- What onRequest makes of the response that the callback has filled in.
unfoldable pub complete : HttpRequest → HttpResponse → HttpResponse
complete req r =
    let r' = close_old req (add_length r) in
    Response.set_status_line (answer_version req) r'.status_code (reason_of r'.status_code) r'

abbrev pub effects_of : HttpResponse → List Effect
effects_of r =
    if r.close_connection
    then send (Response.append_to_buffer r) ∷ shutdown ∷ []
    else send (Response.append_to_buffer r) ∷ []

abbrev pub bad_request : List Effect
bad_request = send (codes "HTTP/1.1 400 Bad Request" ++ 13 ∷ 10 ∷ 13 ∷ 10 ∷ []) ∷ shutdown ∷ []

module _ {Regex W : Type 0} (regex_match : Regex → Text → Option (List Text))
    (router : Router Regex W) (chain : MiddlewareChain W) where
  -- the router, and the 404 where it has no route
  unfoldable pub route_or_404 : HttpRequest → HttpResponse → W → Outcome W HttpResponse
  route_or_404 req resp w = elim (route regex_match router req resp w) [
    | some o ↦ o
    | none ↦ done (not_found resp) w
  ]

  -- the body of the `try` behind the first middlewares
  unfoldable pub route_and_after : HttpResponse → HttpRequest → W → Outcome W HttpResponse
  route_and_after resp req w =
      let o = route_or_404 req resp w in
      elim o.raised [ none ↦ process_after chain o.value o.world | some e ↦ o ]

  unfoldable pub handle_request : HttpRequest → HttpResponse → W → Outcome W HttpResponse
  handle_request req resp w =
      let b = process_before chain req w in
      elim b.raised [
        | none ↦ catch_all (route_and_after resp b.value b.world)
        | some e ↦ catch_raised e resp b.world
      ]

  -- onRequest, with handleRequest as its callback. After a fault there is no program left, nor after
  -- an exception that onMessage does not catch.
  unfoldable pub on_request : HttpRequest → W → Outcome W (List Effect)
  on_request req w =
      let o = handle_request req (Response.new_response (wants_close req)) w in
      elim o.raised [
        | none ↦ done (effects_of (complete req o.value)) o.world
        | some e ↦ raise e [] o.world
      ]

-- A connection with its context and its input buffer, beside the world.
pub record Connection (B W : Type 0) : Type 0 where
  pub context : HttpContext
  pub buffer : B
  pub world : W

pub record Handled (B W : Type 0) : Type 0 where
  pub effects : List Effect
  pub connection : Connection B W
  pub crashed : Bool

module _ (api : Buffer) {Regex W : Type 0} (regex_match : Regex → Text → Option (List Text))
    (router : Router Regex W) (chain : MiddlewareChain W) where
  -- A request that is complete is answered, and the context made ready for the next.
  unfoldable pub answer : List Effect → HttpContext → api.Buf → W → Handled api.Buf W
  answer before c b w =
      let o = on_request regex_match router chain c.request w in
      if got_all c
      then record {
        effects = before ++ o.value;
        connection = record { context = reset c; buffer = b; world = o.world };
        crashed = is_some o.raised;
      }
      else record {
        effects = before;
        connection = record { context = c; buffer = b; world = w };
        crashed = false;
      }

  unfoldable pub after_parse : Parsed api.Buf → W → Handled api.Buf W
  after_parse p w = elim p.verdict [
    | returned ok ↦ answer (if ok then [] else bad_request) p.context p.buffer w
    | threw ↦ record {
      effects = bad_request;
      connection = record { context = p.context; buffer = p.buffer; world = w };
      crashed = false;
    }
  ]

  -- onMessage; `none` where parseRequest does not end
  unfoldable pub on_message : ℕ → Connection api.Buf W → Option (Handled api.Buf W)
  on_message time conn =
      Option.map (λ p. after_parse p conn.world) (parse_request api time conn.context conn.buffer)
