-- ===== src/Middleware/Laws.antt =====
-- The order in which a chain calls its middlewares, and what exceptions do to it.
use mathlib.Core.List.{reverse, reverse_aux, reverse-cons}
use http.Prelude.{
  append_assoc, append-nil, ◌≡◌, ◌≢◌, refl, sym, ap, ◌∙◌, List, [], ◌∷◌, ◌++◌, none, some, arith,
  map, Option-cases, inl, inr,
}
use http.Std.Text.{Text}
use http.Http.Request.{HttpRequest}
use http.Http.Response.{HttpResponse}
use http.Exceptions.{Outcome, std_exception, fault, done, and_then}
use http.Middleware.{
  Middleware, MiddlewareChain, process_before, after_each, process_after, catch_std,
}

module _ {W : Type 0} where
  -- A chain in two parts runs the first part and then, unless it threw, the second.
  pub process_before-append :
      (ms ns : MiddlewareChain W) (req : HttpRequest) (w : W)
      → process_before (ms ++ ns) req w ≡ and_then (process_before ms req w) (process_before ns)
  unfolding process_before
  process_before-append [] ns req w = refl
  process_before-append (none ∷ ms) ns req w = refl
  process_before-append (some m ∷ ms) ns req w = elim (Option-cases (m.before req w).raised) [
    | inl e ↦ rw e (process_before-append ms ns (m.before req w).value (m.before req w).world)
    | inr (x, e) ↦ rw e
  ]

  after_each-append :
      (ms ns : MiddlewareChain W) (resp : HttpResponse) (w : W)
      → after_each (ms ++ ns) resp w ≡ and_then (after_each ms resp w) (after_each ns)
  unfolding after_each
  after_each-append [] ns resp w = refl
  after_each-append (none ∷ ms) ns resp w = after_each-append ms ns resp w
  after_each-append (some m ∷ ms) ns resp w = elim (Option-cases (m.after resp w).raised) [
    | inl e ↦ rw e (after_each-append ms ns (m.after resp w).value (m.after resp w).world)
    | inr (x, e) ↦ rw e
  ]

  -- After a request, the middleware at the head of the chain is called last.
  pub process_after-cons :
      (m : Middleware W) (ms : MiddlewareChain W) (resp : HttpResponse) (w : W)
      → process_after (some m ∷ ms) resp w
        ≡ catch_std (and_then (after_each (reverse ms) resp w) (after_each (some m ∷ [])))
  unfolding process_after
  process_after-cons m ms resp w =
      rw (reverse-cons, after_each-append (reverse ms) (some m ∷ []) resp w)

  and_then_skip : (o : Outcome W HttpResponse) → and_then o (after_each (none ∷ [])) ≡ o
  unfolding after_each
  and_then_skip o = ground arith

  -- A null middleware is fatal before a request, whatever stands behind it, and is skipped after it.
  pub null_middleware :
      (ms : MiddlewareChain W) (req : HttpRequest) (resp : HttpResponse) (w : W)
      → ((process_before (none ∷ ms) req w).raised ≡ some fault)
        × (process_after (none ∷ ms) resp w ≡ process_after ms resp w)
  unfolding process_before process_after
  null_middleware ms req resp w = (
    refl,
    rw (reverse-cons, after_each-append (reverse ms) (none ∷ []) resp w)
        (ap catch_std (and_then_skip (after_each (reverse ms) resp w))),
  )

  -- Whatever its middlewares do, the chain lets no std::exception out of the second phase.
  pub process_after-no_std :
      (ms : MiddlewareChain W) (resp : HttpResponse) (w : W) (what : Text)
      → (process_after ms resp w).raised ≢ some (std_exception what)
  unfolding process_after catch_std
  process_after-no_std ms resp w what = ground arith

-- A middleware that writes its name down, in each phase.
abbrev pub tracer : Text → Middleware (List Text)
tracer name = record {
  before = λ req w. done req (w ++ name ∷ []);
  after = λ resp w. done resp (w ++ name ∷ []);
}

abbrev pub tracers : List Text → MiddlewareChain (List Text)
tracers = map (λ name. some (tracer name))

before_trace :
    (names w : List Text) (req : HttpRequest)
    → process_before (tracers names) req w ≡ done req (w ++ names)
unfolding process_before
before_trace [] w req = ap (done req) (sym (append-nil w))
before_trace (n ∷ names) w req =
    before_trace names (w ++ n ∷ []) req ∙ ap (done req) (append_assoc w (n ∷ []) names)

after_trace :
    (names w : List Text) (resp : HttpResponse)
    → after_each (tracers names) resp w ≡ done resp (w ++ names)
unfolding after_each
after_trace [] w resp = ap (done resp) (sym (append-nil w))
after_trace (n ∷ names) w resp =
    after_trace names (w ++ n ∷ []) resp ∙ ap (done resp) (append_assoc w (n ∷ []) names)

map-reverse_aux :
    (names acc : List Text)
    → reverse_aux (tracers names) (tracers acc) ≡ tracers (reverse_aux names acc)
map-reverse_aux [] acc = refl
map-reverse_aux (n ∷ names) acc = map-reverse_aux names (n ∷ acc)

tracers-reverse : (names : List Text) → reverse (tracers names) ≡ tracers (reverse names)
tracers-reverse names = map-reverse_aux names []

-- Middlewares that write their names down: before a request in the order of the chain, after it in
-- the opposite order, each once.
pub process-trace :
    (names w : List Text) (req : HttpRequest) (resp : HttpResponse)
    → ((process_before (tracers names) req w).world ≡ w ++ names)
      × ((process_after (tracers names) resp w).world ≡ w ++ reverse names)
unfolding process_after catch_std
process-trace names w req resp =
    (rw (before_trace names w req), rw (tracers-reverse names, after_trace (reverse names) w resp))
