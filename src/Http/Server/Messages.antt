-- ===== src/Http/Server/Messages.antt =====
-- What onMessage does to a connection.

use http.Prelude.{
  ◌++◌, sym, append-nil, Bool-cases, inr, ◌⊎◌, inl, ℕ, ◌≡◌, ◌≢◌, refl, ap, Bool, true, false, List,
  [], Option, some, arith, if◌then◌else◌,
}
use http.Std.Text.{Text}
use http.Http.Buffer.{Buffer, BufferLaws}
use http.Http.Request.{HttpRequest, swap}
use http.Http.Context.Asserts.{parse_request-unset}
use http.Http.Context.{
  got_all, method_unset, Verdict, HttpContext, got_all_state, expect_request_line, reset,
  parse_request, Parsed, returned, threw, has_body,
}
use http.Http.Context.Loop.{
  parse_request_total, parse_request-threw, parse_request_of_view, IsWaiting,
}
use http.Http.Context.Wire.{wire, wire_request, fresh, IsWire, parse_request-wire}
use http.Http.Server.{
  Connection, Handled, Effect, on_message, after_parse, answer, on_request, bad_request,
}
use http.Router.{Router}
use http.Middleware.{MiddlewareChain}

abbrev whole : HttpRequest → Text → Parsed Text
whole r rest = record {
  verdict = returned true;
  context = record { state = got_all_state; request = r };
  buffer = rest;
}

-- The parser of the connection has not stopped at a whole request.
abbrev pub IsLive : {B W : Type 0} → Connection B W → Type 0
IsLive conn = conn.context.state ≢ got_all_state

verdict_cases : (v : Verdict) → ((ok : Bool) × (v ≡ returned ok)) ⊎ (v ≡ threw)
verdict_cases (returned ok) = inl (ok, refl)
verdict_cases threw = inr refl

module _ (api : Buffer) {Regex W : Type 0} (regex_match : Regex → Text → Option (List Text))
    (router : Router Regex W) (chain : MiddlewareChain W) where
  answer-IsLive :
      (before : List Effect) (c : HttpContext) (b : api.Buf) (w : W)
      → IsLive (answer api regex_match router chain before c b w).connection
  unfolding answer reset
  answer-IsLive before c b w = grind arith

  after_parse-IsLive :
      (p : Parsed api.Buf) (w : W)
      → (p.verdict ≡ threw → p.context.state ≢ got_all_state)
      → IsLive (after_parse api regex_match router chain p w).connection
  unfolding after_parse
  after_parse-IsLive p w h = elim (verdict_cases p.verdict) [
    | inl (ok, e) ↦
        rw (e, after_parse) (answer-IsLive (if ok then [] else bad_request) p.context p.buffer w)
    | inr e ↦ rw (e, after_parse) (h e)
  ]

  answered :
      (p : Parsed api.Buf) (r : HttpRequest) (w : W)
      → p.verdict ≡ returned true
      → p.context ≡ record { state = got_all_state; request = r }
      → ((after_parse api regex_match router chain p w).effects
          ≡ (on_request regex_match router chain r w).value)
        × ((after_parse api regex_match router chain p w).connection.context.state
            ≡ expect_request_line)
        × ((after_parse api regex_match router chain p w).connection.buffer ≡ p.buffer)
  unfolding after_parse answer reset
  answered p r w v c = (ground arith, ground arith, ground arith)

  -- The assertion of setMethod will hold, or the client has been told that its request was bad.
  abbrev pub IsReady : Handled api.Buf W → Type 0
  IsReady h =
      (method_unset h.connection.context ≡ true)
      ⊎ ((rest : List Effect) × (h.effects ≡ bad_request ++ rest))

  answer-unset :
      (before : List Effect) (c : HttpContext) (b : api.Buf) (w : W)
      → method_unset c ≡ true
      → method_unset (answer api regex_match router chain before c b w).connection.context ≡ true
  unfolding answer reset swap method_unset
  answer-unset before c b w h = elim (Bool-cases (got_all c)) [ inl e ↦ rw e refl | inr e ↦ rw e h ]

  answer-before :
      (before : List Effect) (c : HttpContext) (b : api.Buf) (w : W)
      → (rest : List Effect) × ((answer api regex_match router chain before c b w).effects
          ≡ before ++ rest)
  unfolding answer
  answer-before before c b w = elim (Bool-cases (got_all c)) [
    | inl e ↦ ((on_request regex_match router chain c.request w).value, rw e refl)
    | inr e ↦ ([], rw e (sym (append-nil before)))
  ]

  after_parse-IsReady :
      (p : Parsed api.Buf) (w : W)
      → (p.verdict ≡ returned true → method_unset p.context ≡ true)
      → IsReady (after_parse api regex_match router chain p w)
  unfolding after_parse
  after_parse-IsReady p w h = elim (verdict_cases p.verdict) [
    | inl (true, e) ↦ rw (e, after_parse) (inl (answer-unset [] p.context p.buffer w (h e)))
    | inl (false, e) ↦ rw (e, after_parse) (inr (answer-before bad_request p.context p.buffer w))
    | inr e ↦ rw (e, after_parse) (inr ([], refl))
  ]

  module _ (laws : BufferLaws api) where
    -- On a live connection at which the assertion of setMethod will hold, onMessage ends, whatever the
    -- bytes, and the connection is live after it, so that the next message does not find it in the
    -- state in which the parser does not end. The assertion will hold at the next message too, unless
    -- the client has been sent status 400 and the connection shut down.
    pub on_message_total :
        (time : ℕ) (conn : Connection api.Buf W)
        → IsLive conn
        → method_unset conn.context ≡ true
        → (h : Handled api.Buf W) × (on_message api regex_match router chain time conn ≡ some h)
          × IsLive h.connection
          × ((method_unset h.connection.context ≡ true)
              ⊎ ((rest : List Effect) × (h.effects ≡ bad_request ++ rest)))
    unfolding on_message
    on_message_total time conn live unset =
        let (p, e) = parse_request_total api laws time conn.context conn.buffer live in
        (
          after_parse api regex_match router chain p conn.world,
          rw e,
          after_parse-IsLive p conn.world
              (parse_request-threw api laws time conn.context conn.buffer p live e),
          after_parse-IsReady p conn.world
              (parse_request-unset api time conn.context conn.buffer p unset e),
        )

    -- A message that does not complete a request is kept: nothing is sent, and the world is as before.
    pub on_message_waiting :
        (time : ℕ) (conn : Connection api.Buf W) (p : Parsed api.Buf)
        → parse_request api time conn.context conn.buffer ≡ some p
        → IsWaiting p
        → (h : Handled api.Buf W) × (on_message api regex_match router chain time conn ≡ some h)
          × (h.effects ≡ [])
          × (h.connection ≡ record { context = p.context; buffer = p.buffer; world = conn.world })
    unfolding on_message after_parse answer
    on_message_waiting time conn p e (v, s) =
        (after_parse api regex_match router chain p conn.world, rw e, grind arith, grind arith)

    -- A complete request without a body, with more bytes behind it: exactly that request is answered,
    -- the parser is ready for the next, and the bytes behind it stay in the buffer.
    pub on_message-wire :
        (r : HttpRequest) (time : ℕ) (m target : Text) (v : Bool) (hs : List (Text × Text))
        (rest : Text) (conn : Connection api.Buf W)
        → IsWire m target v hs
        → has_body (wire_request r time m target v hs).method ≡ false
        → conn.context ≡ fresh r
        → api.readable conn.buffer ≡ wire m target v hs rest
        → (h : Handled api.Buf W) × (on_message api regex_match router chain time conn ≡ some h)
          × (h.effects
              ≡ (on_request regex_match router chain
                  (wire_request r time m target v hs)
                  conn.world).value)
          × (h.connection.context.state ≡ expect_request_line)
          × (api.readable h.connection.buffer ≡ rest)
    unfolding on_message
    on_message-wire r time m target v hs rest conn w body c b =
        let r' = wire_request r time m target v hs in
        let q : Parsed Text = whole r' rest in
        let (p, e, seen) =
          parse_request_of_view api laws time conn.context conn.buffer q
            (rw (c, b) (parse_request-wire r time m target v hs rest w body)) in
        let (effects, state, buffer) =
          answered p r' conn.world (ap (λ (x : Parsed Text). x.verdict) seen)
            (ap (λ (x : Parsed Text). x.context) seen) in
        (
          after_parse api regex_match router chain p conn.world,
          rw e,
          effects,
          state,
          rw buffer (ap (λ (x : Parsed Text). x.buffer) seen),
        )
