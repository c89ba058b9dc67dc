-- ===== src/Http/Context/Reset.antt =====
-- What is left of a request when its context is used again, and the state in which the parser
-- does not end.
use http.Prelude.{
  arith, Option-cases, inl, inr, ℕ, zero, suc, ◌≡◌, refl, ◌∙◌, Bool, false, none, List, [], ◌∷◌,
  foldl,
}
use http.Std.Text.{Text, cut, split}
use http.Http.Buffer.{Buffer, bytes}
use http.Http.Request.{
  set_path, method_of, HttpRequest, new_request, swap, add_header, set_query_parameters, add_pair,
}
use http.Http.Context.{
  HttpContext, expect_request_line, got_all_state, reset, read_target, parse_loop, parse_request,
  round_of, after_round, has_body,
}
use http.Http.Context.Wire.{
  add_line, line_request, wire, wire_request, IsWire, finished, parse_request-wire,
}

-- `reset` clears every field of the request but the body and its length.
pub reset-fields :
    (c : HttpContext)
    → reset c ≡ record {
      state = expect_request_line;
      request = record new_request {
        content = c.request.content;
        content_length = c.request.content_length;
      };
    }
unfolding reset swap
reset-fields c = refl

add_pair-content : (r : HttpRequest) (p : Text) → (add_pair r p).content ≡ r.content
unfolding add_pair
add_pair-content r p = ground arith

add_pairs-content : (ps : List Text) (r : HttpRequest) → (foldl add_pair r ps).content ≡ r.content
add_pairs-content [] r = refl
add_pairs-content (p ∷ ps) r = add_pairs-content ps (add_pair r p) ∙ add_pair-content r p

read_target-content : (target : Text) (r : HttpRequest) → (read_target target r).content ≡ r.content
unfolding read_target set_query_parameters
read_target-content target r = elim (Option-cases (cut b'?' target)) [
  | inl e ↦ rw (e, read_target)
  | inr (p, e) ↦ rw (e, read_target) (add_pairs-content (split b'&' p.1) (set_path p.0 r))
]

add_lines-content :
    (hs : List (Text × Text)) (r : HttpRequest) → (foldl add_line r hs).content ≡ r.content
unfolding add_header
add_lines-content [] r = refl
add_lines-content (p ∷ hs) r = add_lines-content hs (add_line r p)

reset_content : (c : HttpContext) → (reset c).request.content ≡ c.request.content
unfolding reset swap
reset_content c = refl

-- The next request on a connection, when it has no body of its own, has the body of the one before
-- it.
pub parse_request-reset_content :
    (c : HttpContext) (time : ℕ) (m target : Text) (v : Bool) (hs : List (Text × Text))
    (rest : Text)
    → IsWire m target v hs
    → has_body (wire_request (reset c).request time m target v hs).method ≡ false
    → (r : HttpRequest) × (parse_request bytes time (reset c) (wire m target v hs rest)
        ≡ finished r rest)
      × (r.content ≡ c.request.content)
unfolding reset
parse_request-reset_content c time m target v hs rest w h =
    let r = (reset c).request in
    (
      wire_request r time m target v hs,
      parse_request-wire r time m target v hs rest w h,
      add_lines-content hs (line_request r time m target v)
          ∙ read_target-content target (record r { method = method_of m })
          ∙ reset_content c,
    )

-- A context that holds a whole request is never left by the loop, whatever the fuel.
pub parse_loop-got_all :
    (api : Buffer) (fuel time : ℕ) (r : HttpRequest) (b : api.Buf)
    → parse_loop api fuel time (record { state = got_all_state; request = r }) b ≡ none
unfolding parse_loop round_of after_round
parse_loop-got_all api zero time r b = refl
parse_loop-got_all api (suc fuel) time r b = parse_loop-got_all api fuel time r b
