-- ===== src/Router/Examples.antt =====
-- Tests of the router, and the theorems at concrete inputs.
use http.Prelude.{
  is_some, ℕ, ◌+◌, ◌≡◌, refl, false, List, [], ◌∷◌, ◌++◌, Option, none, some, text_eq, list_beq,
}
use http.Std.Text.{Text, codes, cut}
use http.Std.Number.{to_string}
use http.Std.Map.{lookup, insert}
use http.Http.Request.{HttpRequest, Method, new_request, get_path_parameters, set_path_parameters}
use http.Http.Response.{new_response, set_body}
use http.Exceptions.{done}
use http.Router.{
  Router, Handler, register_handler, register_callback, add_regex_handler, add_regex_callback,
  extract_path_parameters, first_match, route, regex_text, route_key_eq,
}
use http.Router.Laws.{parameter, or_else, get_elem?, route-dynamic}

routing : Unit {0}
unfolding cut to_string lookup insert set_path_parameters register_handler register_callback
    add_regex_handler add_regex_callback extract_path_parameters first_match route regex_text
    list_beq
routing = tt

regex_text_test : regex_text (codes "/s/:id/x") ≡ codes "^/s/([^/]+)/x$"
unfolding regex_text
regex_text_test = refl

-- a matcher for expressions that are plain prefixes: the rest of the path is the one group
abbrev strip : Text → Text → Option (List Text)
strip [] path = some (path ∷ [])
strip (c ∷ cs) [] = none
strip (c ∷ cs) (d ∷ ds) = strip cs ds

abbrev say : Text → Handler ℕ
say text req resp w = done (set_body (text ++ get_path_parameters (codes "param1") req) resp) w

abbrev request_to : Text → HttpRequest
request_to path = record new_request { method = Method.get; path = path }

abbrev routes : Router Text ℕ
routes = record {
  handlers = (record { method = Method.get; path = codes "/" }, say (codes "home")) ∷ [];
  callbacks = [];
  regex_handlers = (Method.get, codes "/s/", say (codes "short")) ∷ [];
  regex_callbacks = [];
}

dynamic_test :
    route strip routes (request_to (codes "/s/abc")) (new_response false) 5
    ≡ some (done (set_body (codes "shortabc") (new_response false)) 5)
unfolding routing
dynamic_test = refl

route-dynamic_example :
    (params : List (Text × Text)) × (route strip routes
        (request_to (codes "/s/abc"))
        (new_response false)
        5
      ≡ some (
          say
            (codes "short")
            (record (request_to (codes "/s/abc")) { path_parameters = params })
            (new_response false)
            5))
    × ((k : ℕ) → lookup (parameter (1 + k)) params ≡ or_else (get_elem? (codes "abc" ∷ []) k) none)
unfolding routing
route-dynamic_example =
    route-dynamic strip routes (request_to (codes "/s/abc")) (new_response false) 5 [] [] Method.get
      (codes "/s/") (say (codes "short")) (codes "abc" ∷ []) refl refl refl tt refl refl

-- the same, with no groups
abbrev accept : Text → Text → Option (List Text)
accept [] path = some []
accept (c ∷ cs) [] = none
accept (c ∷ cs) (d ∷ ds) = accept cs ds

same_paths : (regex path : Text) → is_some (strip regex path) ≡ is_some (accept regex path)
same_paths [] path = refl
same_paths (c ∷ cs) [] = refl
same_paths (c ∷ cs) (d ∷ ds) = same_paths cs ds

abbrev callbacks : Router Text ℕ
callbacks = record {
  handlers = [];
  callbacks = [];
  regex_handlers = [];
  regex_callbacks = (Method.get, codes "/s/", say (codes "short")) ∷ [];
}
