-- ===== src/Exceptions.antt =====
-- What the handlers and the middlewares of the server exchange: results that change an object in
-- place and may throw.
use http.Prelude.{Option, none, some}
use http.Std.Text.{Text}
use http.Http.Response.{HttpResponse}

-- What is thrown: a response, a std::exception with its text, or something else; and a null pointer
-- that is followed, which is no exception, and which nothing catches.
pub data Raised : Type 0 where
  response : HttpResponse → Raised
  std_exception : Text → Raised
  unknown_exception : Raised
  fault : Raised

-- `value` is the object that the call changed, also where it threw on the way.
pub record Outcome (W A : Type 0) : Type 0 where
  pub value : A
  pub world : W
  pub raised : Option Raised

abbrev pub done : {W A : Type 0} → A → W → Outcome W A
done a w = record { value = a; world = w; raised = none }

abbrev pub raise : {W A : Type 0} → Raised → A → W → Outcome W A
raise e a w = record { value = a; world = w; raised = some e }

-- The next step, unless this one threw.
abbrev pub and_then : {W A : Type 0} → Outcome W A → (A → W → Outcome W A) → Outcome W A
and_then o k = elim o.raised [ none ↦ k o.value o.world | some e ↦ o ]
