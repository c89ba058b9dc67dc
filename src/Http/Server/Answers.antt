-- ===== src/Http/Server/Answers.antt =====
-- What handleRequest and onRequest answer.
use http.Prelude.{
  list_beq, same_refl, ◌≡◌, ◌⊎◌, refl, sym, ap, ◌∙◌, Bool, true, false, not, ◌&&◌, ◌||◌, List, [],
  ◌∷◌, ◌++◌, Option, none, some, arith, same, text_eq, Option-cases, inl, inr, length,
  if◌then◌else◌,
}
use http.Std.Text.{Text, codes, is_empty}
use http.Std.Number.{to_string}
use http.Std.Map.{lookup-insert_sorted}
use http.Http.Request.{HttpRequest, get_header}
use http.Http.Response as Response
use http.Http.Response.{HttpResponse}
use http.Http.Server.{
  catch_all, add_length, close_old, complete, catch_raised, route_or_404, route_and_after,
  handle_request, effects_of, send, shutdown,
}
use http.Exceptions.{Outcome, Raised, response, std_exception, unknown_exception, fault, done}
use http.Router.{Router, route}
use http.Middleware.{Middleware, MiddlewareChain, process_before}
use http.Middleware.Laws.{process_before-append}

-- HTTP/1.0 without Keep-Alive
abbrev pub is_old : HttpRequest → Bool
is_old req =
    same req.version (codes "HTTP/1.0")
    && not (same (get_header (codes "Connection") req) (codes "Keep-Alive"))

-- The headers that decide the length of an answer.
abbrev pub has_length : HttpResponse → Bool
has_length r = not (
    is_empty (Response.get_header (codes "Content-Length") r)
    && is_empty (Response.get_header (codes "Transfer-Encoding") r))

get_header-add_self :
    (k v : Text) (r : HttpResponse) → Response.get_header k (Response.add_header k v r) ≡ v
unfolding Response.add_header
get_header-add_self k v r = rw (lookup-insert_sorted, same_refl k)

get_header-add_ne :
    (k j v : Text) (r : HttpResponse)
    → same k j ≡ false
    → Response.get_header j (Response.add_header k v r) ≡ Response.get_header j r
unfolding Response.add_header
get_header-add_ne k j v r h = rw (lookup-insert_sorted, h)

connection-other :
    (same (codes "Connection") (codes "Content-Length") ≡ false)
    × (same (codes "Connection") (codes "Transfer-Encoding") ≡ false)
unfolding list_beq
connection-other = (refl, refl)

close_old-get_header :
    (req : HttpRequest) (r : HttpResponse) (j : Text)
    → same (codes "Connection") j ≡ false
    → Response.get_header j (close_old req r) ≡ Response.get_header j r
unfolding close_old
close_old-get_header req r j h = ground (
  arith,
  get_header-add_ne (codes "Connection") j (codes "close") (Response.set_close_connection true r) h,
)

close_old-body : (req : HttpRequest) (r : HttpResponse) → (close_old req r).body ≡ r.body
unfolding close_old Response.add_header
close_old-body req r = ground arith

add_length-get_header :
    (r : HttpResponse)
    → Response.get_header (codes "Content-Length") (add_length r) ≡ (
        if has_length r
        then Response.get_header (codes "Content-Length") r
        else to_string (length r.body))
unfolding add_length
add_length-get_header r =
    ground (arith, get_header-add_self (codes "Content-Length") (to_string (length r.body)) r)

length_other : same (codes "Content-Length") (codes "Transfer-Encoding") ≡ false
unfolding list_beq
length_other = refl

add_length-transfer :
    (r : HttpResponse)
    → Response.get_header (codes "Transfer-Encoding") (add_length r)
      ≡ Response.get_header (codes "Transfer-Encoding") r
unfolding add_length
add_length-transfer r = ground (
  arith,
  get_header-add_ne (codes "Content-Length") (codes "Transfer-Encoding") (to_string (length r.body))
      r length_other,
)

add_length-body : (r : HttpResponse) → (add_length r).body ≡ r.body
unfolding add_length Response.add_header
add_length-body r = ground arith

-- An answer has the Content-Length that the handler set, or, if it set neither that header nor
-- Transfer-Encoding, the length of its body. The body and Transfer-Encoding are the handler's.
pub complete-length :
    (req : HttpRequest) (r : HttpResponse)
    → (Response.get_header (codes "Content-Length") (complete req r) ≡ (
        if has_length r
        then Response.get_header (codes "Content-Length") r
        else to_string (length (complete req r).body)))
      × (Response.get_header (codes "Transfer-Encoding") (complete req r)
          ≡ Response.get_header (codes "Transfer-Encoding") r)
      × ((complete req r).body ≡ r.body)
unfolding complete
complete-length req r =
    let body = close_old-body req (add_length r) ∙ add_length-body r in
    (
      close_old-get_header req (add_length r) (codes "Content-Length") connection-other.0
          ∙ add_length-get_header r
          ∙ ap
              (λ b.
                if has_length r
                then Response.get_header (codes "Content-Length") r
                else to_string (length b))
              (sym body),
      close_old-get_header req (add_length r) (codes "Transfer-Encoding") connection-other.1
          ∙ add_length-transfer r,
      body,
    )

complete-close_connection :
    (req : HttpRequest) (r : HttpResponse)
    → (complete req r).close_connection ≡ (r.close_connection || is_old req)
unfolding complete close_old add_length Response.add_header
complete-close_connection req r = ground arith

-- One answer is sent, and the connection is shut down behind it exactly when the response asks for
-- that or the request is HTTP/1.0 without Keep-Alive.
pub effects_of-complete :
    (req : HttpRequest) (r : HttpResponse)
    → effects_of (complete req r)
      ≡ send (Response.append_to_buffer (complete req r))
        ∷ (if r.close_connection || is_old req then shutdown ∷ [] else [])
effects_of-complete req r = ground (arith, complete-close_connection req r)

-- neither a response nor a std::exception
abbrev pub IsUncaught : Raised → Type 0
IsUncaught e = (e ≡ unknown_exception) ⊎ (e ≡ fault)

module _ {Regex W : Type 0} (regex_match : Regex → Text → Option (List Text)) where
  catch_raised-IsUncaught :
      (e : Raised) (resp : HttpResponse) (w : W)
      → ((catch_raised e resp w).raised ≡ none)
        ⊎ (((catch_raised e resp w).raised ≡ some e) × IsUncaught e)
  unfolding catch_raised
  catch_raised-IsUncaught (response res) resp w = inl refl
  catch_raised-IsUncaught (std_exception what) resp w = inl refl
  catch_raised-IsUncaught unknown_exception resp w = inr (refl, inl refl)
  catch_raised-IsUncaught fault resp w = inr (refl, inr refl)

  -- handleRequest returns, unless the middlewares before the router, or the router and the middlewares
  -- behind it, throw something that is neither a response nor a std::exception, or follow a null
  -- pointer: what leaves it then is what they threw. It catches every response and every std::exception.
  pub handle_request_caught :
      (router : Router Regex W) (chain : MiddlewareChain W) (req : HttpRequest)
      (resp : HttpResponse) (w : W)
      → ((handle_request regex_match router chain req resp w).raised ≡ none)
        ⊎ ((e : Raised) × ((handle_request regex_match router chain req resp w).raised ≡ some e)
            × IsUncaught e
            × (((process_before chain req w).raised ≡ some e)
                ⊎ ((route_and_after regex_match router chain resp
                      (process_before chain req w).value
                      (process_before chain req w).world).raised
                    ≡ some e)))
  unfolding handle_request
  handle_request_caught router chain req resp w =
      let b = process_before chain req w in
      let o = route_and_after regex_match router chain resp b.value b.world in
      elim (Option-cases b.raised) [
        | inr (e, h) ↦
            rw (h, handle_request)
              (elim (catch_raised-IsUncaught e resp b.world) [
                | inl r ↦ inl r
                | inr (r, u) ↦ inr (e, r, u, inl refl)
              ])
        | inl h ↦ elim (Option-cases o.raised) [
          | inr (e, k) ↦
              rw (h, handle_request, k)
                (elim (catch_raised-IsUncaught e o.value o.world) [
                  | inl r ↦ inl r
                  | inr (r, u) ↦ inr (e, r, u, inr refl)
                ])
          | inl k ↦ rw (h, handle_request, k) (inl refl)
        ]
      ]

  handle_request_raised :
      (router : Router Regex W) (chain : MiddlewareChain W) (req : HttpRequest)
      (resp : HttpResponse) (w : W) (e : Raised)
      → (process_before chain req w).raised ≡ some e
      → handle_request regex_match router chain req resp w
        ≡ catch_raised e resp (process_before chain req w).world
  unfolding handle_request
  handle_request_raised router chain req resp w e h = rw (h, handle_request)

  blocked :
      (before behind : MiddlewareChain W) (m : Middleware W) (req : HttpRequest) (w : W)
      (e : Raised)
      → (process_before before req w).raised ≡ none
      → (m.before (process_before before req w).value (process_before before req w).world).raised
        ≡ some e
      → process_before (before ++ some m ∷ behind) req w
        ≡ m.before (process_before before req w).value (process_before before req w).world
  unfolding process_before
  blocked before behind m req w e h k =
      process_before-append before (some m ∷ behind) req w ∙ ground arith

  -- A middleware that throws a response before the request is routed: the answer is that response,
  -- whatever stands behind the middleware in the chain and whatever the router has.
  pub handle_request_blocked :
      (router : Router Regex W) (before behind : MiddlewareChain W) (m : Middleware W)
      (req : HttpRequest) (resp res : HttpResponse) (w : W)
      → (process_before before req w).raised ≡ none
      → (m.before (process_before before req w).value (process_before before req w).world).raised
        ≡ some (response res)
      → handle_request regex_match router (before ++ some m ∷ behind) req resp w
        ≡ done res
            (m.before (process_before before req w).value (process_before before req w).world).world
  unfolding catch_raised
  handle_request_blocked router before behind m req resp res w h k =
      let e = blocked before behind m req w (response res) h k in
      handle_request_raised router (before ++ some m ∷ behind) req resp w (response res)
        (ap (λ (o : Outcome W HttpRequest). o.raised) e ∙ k)
      ∙ ap (λ (o : Outcome W HttpRequest). done res o.world) e

  route_and_after_failed :
      (router : Router Regex W) (chain : MiddlewareChain W) (req : HttpRequest)
      (resp : HttpResponse) (w : W) (o : Outcome W HttpResponse) (e : Raised)
      → route regex_match router req resp w ≡ some o
      → o.raised ≡ some e
      → route_and_after regex_match router chain resp req w ≡ o
  unfolding route_and_after route_or_404
  route_and_after_failed router chain req resp w o e k h = ground arith

  pub handle_request_routed :
      (router : Router Regex W) (chain : MiddlewareChain W) (req : HttpRequest)
      (resp : HttpResponse) (w : W)
      → (process_before chain req w).raised ≡ none
      → handle_request regex_match router chain req resp w
        ≡ catch_all (
            route_and_after regex_match router chain resp
              (process_before chain req w).value
              (process_before chain req w).world)
  unfolding handle_request
  handle_request_routed router chain req resp w h = rw (h, handle_request)

  -- A handler that throws a std::exception: the client gets status 500 with the exception's text, in
  -- the response as the handler left it, and the middlewares are not called again.
  pub handle_request_failed :
      (router : Router Regex W) (chain : MiddlewareChain W) (req : HttpRequest)
      (resp : HttpResponse) (w : W) (o : Outcome W HttpResponse) (what : Text)
      → (process_before chain req w).raised ≡ none
      → route regex_match router
          (process_before chain req w).value
          resp
          (process_before chain req w).world
        ≡ some o
      → o.raised ≡ some (std_exception what)
      → handle_request regex_match router chain req resp w
        ≡ done (Response.set_body what (Response.set_status_code 500 o.value)) o.world
  unfolding catch_raised
  handle_request_failed router chain req resp w o what h k e =
      let b = process_before chain req w in
      handle_request_routed router chain req resp w h
      ∙ ap catch_all (route_and_after_failed router chain b.value resp b.world o _ k e)
      ∙ ground arith
