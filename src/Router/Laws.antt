-- ===== src/Router/Laws.antt =====
-- Which handler a request reaches, and with which path parameters.
use mathlib.Core.Option
use http.Prelude.{
  is_some, same_refl, ◌⊎◌, All, ℕ, zero, suc, ◌+◌, ◌<◌, ◌≡◌, ◌↔◌, refl, ap, ◌∙◌, false, List, [],
  ◌∷◌, ◌++◌, Option, none, some, arith, same, same_iff, text_eq, if◌then◌else◌,
}
use http.Std.Text.{Text, codes}
use http.Std.Number.{to_string, to_string_inj}
use http.Std.Map.{lookup, lookup-insert}
use http.Http.Request.{HttpRequest, Method, set_path_parameters}
use http.Http.Response.{HttpResponse}
use http.Router.{
  Router, RouteKey, Handler, route_key_eq, register_handler, extract_path_parameters, first_match,
  route, method_beq, method_beq_iff,
}

abbrev pub parameter : ℕ → Text
parameter i = codes "param" ++ to_string i

parameter_inj : (i j : ℕ) → parameter i ≡ parameter j → i ≡ j
parameter_inj i j e = to_string_inj i j (cc e)

abbrev pub get_elem? {ℓ} : {A : Type ℓ} → List A → ℕ → Option A
get_elem? [] i = none
get_elem? (x ∷ xs) zero = some x
get_elem? (x ∷ xs) (suc i) = get_elem? xs i

-- The first of two that is there.
abbrev pub or_else {ℓ} : {A : Type ℓ} → Option A → Option A → Option A
or_else none o = o
or_else (some x) o = some x

-- Nothing but the path parameters is changed.
extract_only :
    (i : ℕ) (groups : List Text) (r : HttpRequest)
    → extract_path_parameters i groups r
      ≡ record r { path_parameters = (extract_path_parameters i groups r).path_parameters }
unfolding extract_path_parameters set_path_parameters
extract_only i [] r = refl
extract_only i (g ∷ groups) r = extract_only (i + 1) groups (set_path_parameters (parameter i) g r)

-- The parameters from `i` on are set, and those before it stay.
extract_before :
    (i j : ℕ) (groups : List Text) (r : HttpRequest)
    → j < i
    → lookup (parameter j) (extract_path_parameters i groups r).path_parameters
      ≡ lookup (parameter j) r.path_parameters
unfolding extract_path_parameters set_path_parameters
extract_before i j [] r h = refl
extract_before i j (g ∷ groups) r h =
    let other : same (parameter i) (parameter j) ≡ false =
      ground (arith, same_iff (parameter i) (parameter j), parameter_inj i j) in
    extract_before (i + 1) j groups (set_path_parameters (parameter i) g r) (omega arith)
    ∙ (rw (lookup-insert, other))

extract_from :
    (i k : ℕ) (groups : List Text) (r : HttpRequest)
    → lookup (parameter (i + k)) (extract_path_parameters i groups r).path_parameters
      ≡ or_else (get_elem? groups k) (lookup (parameter (i + k)) r.path_parameters)
unfolding extract_path_parameters set_path_parameters
extract_from i k [] r = refl
extract_from i zero (x ∷ groups) r =
    let e : i + 0 ≡ i = omega arith in
    rw e (
      extract_before (i + 1) i groups (set_path_parameters (parameter i) x r) (omega arith)
      ∙ (rw (lookup-insert, same_refl (parameter i))))
extract_from i (suc k) (x ∷ groups) r =
    let e : i + suc k ≡ i + 1 + k = omega arith in
    let other : same (parameter i) (parameter (i + 1 + k)) ≡ false =
      ground (arith, same_iff (parameter i) (parameter (i + 1 + k)), parameter_inj i (i + 1 + k)) in
    rw e (
      extract_from (i + 1) k groups (set_path_parameters (parameter i) x r)
      ∙ ap (or_else (get_elem? groups k)) (rw (lookup-insert, other)))

abbrev pub key_of : HttpRequest → RouteKey
key_of req = record { method = req.method; path = req.path }

module _ {Regex W : Type 0} (regex_match : Regex → Text → Option (List Text)) where
  -- Registering a handler decides the requests with its method and path, and no others.
  pub route-register_handler :
      (m : Method) (path : Text) (h : Handler W) (r : Router Regex W) (req : HttpRequest)
      (resp : HttpResponse) (w : W)
      → route regex_match (register_handler m path h r) req resp w ≡ (
          if same (record { method = m; path = path }) (key_of req)
          then some (h req resp w)
          else route regex_match r req resp w)
  unfolding route register_handler
  route-register_handler m path h r req resp w =
      let k : RouteKey = record { method = m; path = path } in
      ground (arith, lookup-insert k (key_of req) h r.handlers)

  -- The dynamic route is for another method, or does not match the path.
  abbrev pub Misses : HttpRequest → Method × Regex × Handler W → Type 0
  Misses req d = (method_beq d.0 req.method ≡ false) ⊎ (regex_match d.1 req.path ≡ none)

  first_match-eq-none_iff :
      (routes : List (Method × Regex × Handler W)) (req : HttpRequest)
      → (first_match regex_match routes req ≡ none) ↔ All (Misses req) routes
  unfolding first_match
  first_match-eq-none_iff [] req = ground arith
  first_match-eq-none_iff ((m, regex, h) ∷ routes) req =
      ground (arith, first_match-eq-none_iff routes req)

  -- There is no route exactly when no table has one: no handler and no callback for the method and
  -- the path, and no dynamic route of either kind that matches.
  pub route-eq-none_iff :
      (r : Router Regex W) (req : HttpRequest) (resp : HttpResponse) (w : W)
      → (route regex_match r req resp w ≡ none) ↔ (
          (lookup (key_of req) r.handlers ≡ none)
          × (lookup (key_of req) r.callbacks ≡ none)
          × All (Misses req) r.regex_handlers
          × All (Misses req) r.regex_callbacks)
  unfolding route
  route-eq-none_iff r req resp w = ground (
    arith,
    first_match-eq-none_iff r.regex_handlers req,
    first_match-eq-none_iff r.regex_callbacks req,
  )

  -- The route for another method or path is skipped, and the first that is not decides.
  first_match-append :
      (ahead behind : List (Method × Regex × Handler W)) (m : Method) (regex : Regex)
      (h : Handler W) (req : HttpRequest) (groups : List Text)
      → All (Misses req) ahead
      → m ≡ req.method
      → regex_match regex req.path ≡ some groups
      → first_match regex_match (ahead ++ (m, regex, h) ∷ behind) req ≡ some (h, groups)
  unfolding first_match
  first_match-append [] behind m regex h req groups a e g =
      ground (arith, (method_beq_iff m req.method).1 e)
  first_match-append ((m', regex', h') ∷ ahead) behind m regex h req groups (a, others) e g =
      ground (arith, first_match-append ahead behind m regex h req groups others e g)

  -- A request without a static route, a dynamic route for its method whose expression matches its path,
  -- and before it only routes for other methods or whose expressions do not match: the handler of that
  -- route is called, with the response as it is, and with the request changed in its path parameters
  -- only. Of these, `param1`, `param2` and so on are the groups of the match, as many as there are, and
  -- those with a higher number are the request's own.
  pub route-dynamic :
      (r : Router Regex W) (req : HttpRequest) (resp : HttpResponse) (w : W)
      (ahead behind : List (Method × Regex × Handler W)) (m : Method) (regex : Regex)
      (h : Handler W) (groups : List Text)
      → lookup (key_of req) r.handlers ≡ none
      → lookup (key_of req) r.callbacks ≡ none
      → r.regex_handlers ≡ ahead ++ (m, regex, h) ∷ behind
      → All (Misses req) ahead
      → m ≡ req.method
      → regex_match regex req.path ≡ some groups
      → (params : List (Text × Text)) × (route regex_match r req resp w
          ≡ some (h (record req { path_parameters = params }) resp w))
        × ((k : ℕ)
            → lookup (parameter (1 + k)) params
              ≡ or_else (get_elem? groups k) (lookup (parameter (1 + k)) req.path_parameters))
  unfolding route
  route-dynamic r req resp w ahead behind m regex h groups a b d misses e g =
      let found : first_match regex_match r.regex_handlers req ≡ some (h, groups) =
        ap (λ routes. first_match regex_match routes req) d
        ∙ first_match-append ahead behind m regex h req groups misses e g in
      let routed : route regex_match r req resp w
          ≡ some (h (extract_path_parameters 1 groups req) resp w) =
        ground arith in
      (
        (extract_path_parameters 1 groups req).path_parameters,
        routed ∙ ap (λ x. some (h x resp w)) (extract_only 1 groups req),
        λ k. extract_from 1 k groups req,
      )

module _ {Regex W : Type 0} (match₁ match₂ : Regex → Text → Option (List Text))
    (same_paths : (regex : Regex) (path : Text)
      → is_some (match₁ regex path) ≡ is_some (match₂ regex path)) where
  first_match-accepts :
      (routes : List (Method × Regex × Handler W)) (req : HttpRequest)
      → Option.map (λ p. p.0) (first_match match₁ routes req)
        ≡ Option.map (λ p. p.0) (first_match match₂ routes req)
  unfolding first_match
  first_match-accepts [] req = refl
  first_match-accepts ((m, regex, h) ∷ routes) req =
      ground (arith, same_paths regex req.path, first_match-accepts routes req)

  -- Without dynamic handlers, the groups of a match change nothing: two matchers that accept the same
  -- paths, with whatever groups, route a request alike, so a callback of a dynamic route never gets
  -- them.
  pub route-callback_groups :
      (r : Router Regex W) (req : HttpRequest) (resp : HttpResponse) (w : W)
      → r.regex_handlers ≡ []
      → route match₁ r req resp w ≡ route match₂ r req resp w
  unfolding route first_match
  route-callback_groups r req resp w e =
      rw e (ground (arith, first_match-accepts r.regex_callbacks req))
