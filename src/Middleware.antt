-- ===== src/Middleware.antt =====
-- HttpServer/include/middleware and src/middleware: a middleware and the chain of them. The state
-- that a middleware shares with the rest of the program is the world `W`.
use mathlib.Core.List.{reverse}
use http.Prelude.{List, [], ◌∷◌, ◌++◌, Option, none, some}
use http.Http.Request.{HttpRequest}
use http.Http.Response.{HttpResponse}
use http.Exceptions.{
  Outcome, Raised, response, std_exception, unknown_exception, fault, done, raise, and_then,
}
pub mod Laws
mod Examples
pub mod Cors

-- The virtual methods of Middleware. `nextMiddleware_` is set by nobody and read by nobody.
pub record Middleware (W : Type 0) : Type 0 where
  pub before : HttpRequest → W → Outcome W HttpRequest
  pub after : HttpResponse → W → Outcome W HttpResponse

-- The vector of shared pointers; `none` is a null one.
abbrev pub MiddlewareChain : Type 0 → Type 0
MiddlewareChain W = List (Option (Middleware W))

module _ {W : Type 0} where
  unfoldable pub add_middleware : Option (Middleware W) → MiddlewareChain W → MiddlewareChain W
  add_middleware m ms = ms ++ m ∷ []

  -- a null pointer is followed here
  unfoldable pub process_before : MiddlewareChain W → HttpRequest → W → Outcome W HttpRequest
  process_before [] req w = done req w
  process_before (none ∷ ms) req w = raise fault req w
  process_before (some m ∷ ms) req w = and_then (m.before req w) (process_before ms)

  -- the loop of processAfter over the middlewares from the last to the first
  unfoldable pub after_each : MiddlewareChain W → HttpResponse → W → Outcome W HttpResponse
  after_each [] resp w = done resp w
  after_each (none ∷ ms) resp w = after_each ms resp w
  after_each (some m ∷ ms) resp w = and_then (m.after resp w) (after_each ms)

  -- a std::exception ends the loop and is logged
  unfoldable pub catch_std : Outcome W HttpResponse → Outcome W HttpResponse
  catch_std o = elim o.raised [
    | none ↦ o
    | some e ↦ elim e [
      | response r ↦ o
      | std_exception what ↦ done o.value o.world
      | unknown_exception ↦ o
      | fault ↦ o
    ]
  ]

  unfoldable pub process_after : MiddlewareChain W → HttpResponse → W → Outcome W HttpResponse
  process_after ms resp w = catch_std (after_each (reverse ms) resp w)
