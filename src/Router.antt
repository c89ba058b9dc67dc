-- ===== src/Router.antt =====
-- HttpServer/include/router/Router.h and src/router/Router.cpp. Handlers and callbacks are functions
-- of the request and the response; std::regex is a parameter.
pub mod Laws
mod Examples
use mathlib.Core.Option
use http.Prelude.{
  not, ℕ, suc, ◌+◌, Bool, true, false, ◌&&◌, List, [], ◌∷◌, ◌++◌, Option, none, some, Eq, same,
  text_eq, ◌↔◌, ◌≡◌, arith, same_iff, if◌then◌else◌, ◌==◌,
}
use http.Std.Text.{Text, codes, is_empty}
use http.Std.Number.{to_string}
use http.Std.Map.{lookup, insert}
use http.Http.Request.{
  HttpRequest, Method, invalid, get, post, head, put, delete, options, set_path_parameters,
}
use http.Http.Response.{HttpResponse}
use http.Exceptions.{Outcome}

-- The number of a method in its enumeration.
abbrev pub method_number : Method → ℕ
method_number invalid = 0
method_number get = 1
method_number post = 2
method_number head = 3
method_number put = 4
method_number delete = 5
method_number options = 6

abbrev pub method_beq : Method → Method → Bool
method_beq a b = method_number a == method_number b

pub method_beq_iff : (a b : Method) → (method_beq a b ≡ true) ↔ (a ≡ b)
method_beq_iff a b = ground arith

-- Router::RouteKey
pub record RouteKey : Type 0 where
  pub method : Method
  pub path : Text

abbrev pub route_key_beq : RouteKey → RouteKey → Bool
route_key_beq a b = method_beq a.method b.method && same a.path b.path

pub route_key_beq_iff : (a b : RouteKey) → (route_key_beq a b ≡ true) ↔ (a ≡ b)
route_key_beq_iff a b = ground (arith, method_beq_iff a.method b.method, same_iff a.path b.path)

instance abbrev pub route_key_eq : Eq RouteKey
route_key_eq = record { beq = route_key_beq; beq_iff = route_key_beq_iff }

-- The two kinds that a route is registered as, a handler object and a callback, are one here.
abbrev pub Handler : Type 0 → Type 0
Handler W = HttpRequest → HttpResponse → W → Outcome W HttpResponse

pub record Router (Regex W : Type 0) : Type 0 where
  pub handlers : List (RouteKey × Handler W)
  pub callbacks : List (RouteKey × Handler W)
  pub regex_handlers : List (Method × Regex × Handler W)
  pub regex_callbacks : List (Method × Regex × Handler W)

-- `/:` and the first byte of a name: where the pattern of convertToRegex matches.
abbrev starts_parameter : Text → Bool
starts_parameter (a ∷ b ∷ c ∷ _) = (a == b'/') && (b == b':') && not (c == b'/')
starts_parameter _ = false

-- std::regex_replace of `/:([^/]+)`: `skipping` while the bytes belong to a match.
replace_parameters : Bool → Text → Text
replace_parameters skipping [] = []
replace_parameters skipping (c ∷ s) =
    let skipped = replace_parameters true s in
    let kept = replace_parameters false s in
    if starts_parameter (c ∷ s)
    then codes "/([^/]+)" ++ skipped
    else if skipping && not (c == b'/')
    then skipped
    else c ∷ kept

-- convertToRegex, up to the compilation of its text.
unfoldable pub regex_text : Text → Text
unfolding replace_parameters
regex_text pattern = b'^' ∷ (replace_parameters false pattern ++ b'$' ∷ [])

-- `param1`, `param2`, and so on, from the groups of a match.
unfoldable pub extract_path_parameters : ℕ → List Text → HttpRequest → HttpRequest
extract_path_parameters i [] r = r
extract_path_parameters i (group ∷ groups) r =
    extract_path_parameters (i + 1) groups
      (set_path_parameters (codes "param" ++ to_string i) group r)

module _ {Regex W : Type 0} where
  abbrev pub no_routes : Router Regex W
  no_routes = record { handlers = []; callbacks = []; regex_handlers = []; regex_callbacks = [] }

  unfoldable pub register_handler : Method → Text → Handler W → Router Regex W → Router Regex W
  register_handler m path h r = record r {
    handlers = insert (record { method = m; path = path }) h r.handlers;
  }

  unfoldable pub register_callback : Method → Text → Handler W → Router Regex W → Router Regex W
  register_callback m path h r = record r {
    callbacks = insert (record { method = m; path = path }) h r.callbacks;
  }

module _ {Regex W : Type 0} (compile : Text → Regex) where
  unfoldable pub add_regex_handler : Method → Text → Handler W → Router Regex W → Router Regex W
  add_regex_handler m path h r = record r {
    regex_handlers = r.regex_handlers ++ (m, compile (regex_text path), h) ∷ [];
  }

  unfoldable pub add_regex_callback : Method → Text → Handler W → Router Regex W → Router Regex W
  add_regex_callback m path h r = record r {
    regex_callbacks = r.regex_callbacks ++ (m, compile (regex_text path), h) ∷ [];
  }

-- `regex_match` is std::regex_match on the whole path: the groups behind the first, or `none`.
module _ {Regex W : Type 0} (regex_match : Regex → Text → Option (List Text)) where
  -- the first dynamic route for the method whose expression matches, and its groups
  unfoldable pub first_match :
      List (Method × Regex × Handler W) → HttpRequest → Option (Handler W × List Text)
  first_match [] req = none
  first_match ((m, regex, h) ∷ routes) req =
      let rest = first_match routes req in
      if method_beq m req.method
      then elim (regex_match regex req.path) [ none ↦ rest | some groups ↦ some (h, groups) ]
      else rest

  -- `false` is `none`. The callback of a dynamic route is called with the request as it came, and
  -- not with the one that has the parameters.
  unfoldable pub route :
      Router Regex W → HttpRequest → HttpResponse → W → Option (Outcome W HttpResponse)
  route r req resp w =
      let key : RouteKey = record { method = req.method; path = req.path } in
      elim (lookup key r.handlers) [
        | some h ↦ some (h req resp w)
        | none ↦ elim (lookup key r.callbacks) [
          | some h ↦ some (h req resp w)
          | none ↦ elim (first_match r.regex_handlers req) [
            | some (h, groups) ↦ some (h (extract_path_parameters 1 groups req) resp w)
            | none ↦ elim (first_match r.regex_callbacks req) [
              | some (h, groups) ↦ some (h req resp w)
              | none ↦ none
            ]
          ]
        ]
      ]
