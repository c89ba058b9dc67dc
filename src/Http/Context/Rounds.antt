-- ===== src/Http/Context/Rounds.antt =====
-- One round of the parser on plain bytes: how far it gets, and what more bytes behind would change.
use http.Prelude.{
  ℕ, suc, ◌+◌, ◌≤◌, ◌<◌, ◌≡◌, ◌≢◌, refl, Bool, true, false, arith, length, take, drop, Bool-cases,
  Option-cases, inl, inr, ltb, length-drop,
}
use http.Std.Text.{Text, cut, find, find_bound, codes, is_empty}
use http.Std.Number.{IntResult, stoi, value, negative, invalid_argument, out_of_range, to_unsigned}
use http.Http.Buffer.{bytes, crlf}
use http.Http.Request.{HttpRequest, get_header}
use http.Http.Context.{
  HttpContext, Step, more, stop, throw, ParseState, expect_request_line, expect_headers,
  expect_body, got_all_state, process_request_line, request_line_done, on_request_line, with_length,
  on_content_length, on_end_of_headers, on_header_line, on_header, on_body, round_of, has_body,
}

-- A round that goes on leaves less than `n` bytes, and is not finished; nor is one that throws.
abbrev pub Goes : ℕ → Step Text → Type 0
Goes n (more c b) = (length b < n) × (c.state ≢ got_all_state)
Goes n (stop ok c b) = Unit
Goes n (throw c b) = c.state ≢ got_all_state

with_length-Goes :
    (n : ℕ) (c : HttpContext) (b : Text) → Goes (suc (length b)) (with_length bytes n c b)
unfolding with_length
with_length-Goes n c b = elim (Bool-cases (ltb 0 n)) [
  | inl e ↦ rw e (omega arith, cc)
  | inr e ↦ rw e tt
]

on_content_length-Goes :
    (r : IntResult) (c : HttpContext) (b b' : Text)
    → c.state ≢ got_all_state
    → Goes (suc (length b')) (on_content_length bytes r c b b')
unfolding on_content_length
on_content_length-Goes invalid_argument c b b' h = h
on_content_length-Goes out_of_range c b b' h = h
on_content_length-Goes (value n) c b b' h = with_length-Goes (to_unsigned 64 (value n)) c b'
on_content_length-Goes (negative n) c b b' h = with_length-Goes (to_unsigned 64 (negative n)) c b'

on_end_of_headers-Goes :
    (c : HttpContext) (b b' : Text)
    → c.state ≢ got_all_state
    → Goes (suc (length b')) (on_end_of_headers bytes c b b')
unfolding on_end_of_headers
on_end_of_headers-Goes c b b' h = elim (Bool-cases (has_body c.request.method)) [
  | inr e ↦ rw e tt
  | inl e ↦ elim (Bool-cases (is_empty (get_header (codes "Content-Length") c.request))) [
    | inl f ↦ rw (e, f) tt
    | inr f ↦
        rw (e, f)
          (on_content_length-Goes (stoi (get_header (codes "Content-Length") c.request)) c b b' h)
  ]
]

on_header_line-Goes :
    (c : HttpContext) (line b b' : Text)
    → c.state ≢ got_all_state
    → Goes (suc (length b')) (on_header_line bytes c line b b')
unfolding on_header_line
on_header_line-Goes c line b b' h = elim (Option-cases (cut b':' line)) [
  | inr (p, e) ↦ rw (e, on_header_line) (omega arith, h)
  | inl e ↦ elim (Bool-cases (is_empty line)) [
    | inl f ↦ rw (e, on_header_line, f) (on_end_of_headers-Goes c b b' h)
    | inr f ↦ rw (e, on_header_line, f) tt
  ]
]

Goes-mono : {m n : ℕ} (s : Step Text) → m ≤ n → Goes m s → Goes n s
Goes-mono (more c b) h (p, q) = (omega arith, q)
Goes-mono (stop ok c b) h p = tt
Goes-mono (throw c b) h p = p

on_header-Goes :
    (c : HttpContext) (b : Text) {n : ℕ}
    → c.state ≢ got_all_state
    → length b ≤ n
    → Goes n (on_header bytes c b)
unfolding on_header
on_header-Goes c b {n} h l = elim (Option-cases (find crlf b)) [
  | inl e ↦ rw (e, on_header) tt
  | inr (k, e) ↦
      let d = drop (k + 2) b in
      rw (e, on_header)
        (Goes-mono (on_header_line bytes c (take k b) b d)
          (omega (arith, length-drop (k + 2) b, find_bound crlf b e))
          (on_header_line-Goes c (take k b) b d h))
]

request_line_done-Goes :
    (time : ℕ) (c : HttpContext) (r : Bool × HttpRequest) (b b' : Text)
    → Goes (suc (length b')) (request_line_done bytes time c r b b')
unfolding request_line_done
request_line_done-Goes time c (true, r) b b' = (omega arith, cc)
request_line_done-Goes time c (false, r) b b' = tt

on_request_line-Goes :
    (time : ℕ) (c : HttpContext) (b : Text) {n : ℕ}
    → length b ≤ n
    → Goes n (on_request_line bytes time c b)
unfolding on_request_line
on_request_line-Goes time c b {n} l = elim (Option-cases (find crlf b)) [
  | inl e ↦ rw (e, on_request_line) tt
  | inr (k, e) ↦
      let d = drop (k + 2) b in
      let r = process_request_line (take k b) c.request in
      rw (e, on_request_line)
        (Goes-mono (request_line_done bytes time c r b d)
          (omega (arith, length-drop (k + 2) b, find_bound crlf b e))
          (request_line_done-Goes time c r b d))
]

on_body-Goes : (c : HttpContext) (b : Text) (n : ℕ) → Goes n (on_body bytes c b)
unfolding on_body
on_body-Goes c b n = elim (Bool-cases (ltb (length b) c.request.content_length)) [
  | inl e ↦ rw e tt
  | inr e ↦ rw e tt
]

-- Each round of an unfinished parser that goes on takes at least one byte.
pub round_of-Goes :
    (state : ParseState) (time : ℕ) (c : HttpContext) (b : Text) {n : ℕ}
    → c.state ≡ state
    → state ≢ got_all_state
    → length b ≤ n
    → Goes n (round_of bytes state time c b)
unfolding round_of
round_of-Goes expect_request_line time c b e h l = on_request_line-Goes time c b l
round_of-Goes expect_headers time c b e h l = on_header-Goes c b (rw e h) l
round_of-Goes expect_body time c b {n} e h l = on_body-Goes c b n
round_of-Goes got_all_state time c b e h l = absurd (h refl)
