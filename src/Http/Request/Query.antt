-- ===== src/Http/Request/Query.antt =====
-- Query strings, against an encoder that writes `key=value` pairs joined by `&`.
use http.Prelude.{
  ℕ, List, [], ◌∷◌, ◌++◌, ◌≡◌, ◌≢◌, refl, foldl, arith, Option, some, same, text_eq, if◌then◌else◌,
  ap, All, ◌∙◌,
}
use http.Std.Text.{Text, cut, split, Lacks, cut-append}
use http.Std.Map.{lookup, insert, lookup-insert}
use http.Http.Request.{HttpRequest, add_pair, set_query_parameters, get_query_parameters, or_empty}

split_of_Lacks : (c : ℕ) (s : Text) → Lacks c s → split c s ≡ s ∷ []
unfolding split
split_of_Lacks c [] h = refl
split_of_Lacks c (x ∷ s) (n, h) = ground (arith, split_of_Lacks c s h)

split-append : (c : ℕ) (a b : Text) → Lacks c a → split c (a ++ c ∷ b) ≡ a ∷ split c b
unfolding split
split-append c [] b h = ground arith
split-append c (x ∷ a) b (n, h) = ground (arith, split-append c a b h)

-- A key without `=` and `&`, and a value without `&`.
abbrev pub IsEncodable : Text × Text → Type 0
IsEncodable p = Lacks b'=' p.0 × Lacks b'&' p.0 × Lacks b'&' p.1

-- One pair, as a browser writes it.
abbrev pub encode_pair : Text × Text → Text
encode_pair p = p.0 ++ b'=' ∷ p.1

unfoldable pub encode : List (Text × Text) → Text
encode [] = []
encode (p ∷ []) = encode_pair p
encode (p ∷ q ∷ ps) = encode_pair p ++ b'&' ∷ encode (q ∷ ps)

-- The value of the last pair with the key, or else the given one.
unfoldable pub last_value : Text → Option Text → List (Text × Text) → Option Text
last_value key old [] = old
last_value key old (p ∷ ps) = last_value key (if same p.0 key then some p.1 else old) ps

abbrev assign : HttpRequest → Text × Text → HttpRequest
assign r p = record r { query_parameters = insert p.0 p.1 r.query_parameters }

add_pair-encode_pair :
    (r : HttpRequest) (p : Text × Text) → Lacks b'=' p.0 → add_pair r (encode_pair p) ≡ assign r p
unfolding add_pair
add_pair-encode_pair r p h = rw (cut-append b'=' p.0 p.1 h, add_pair)

Lacks-append : (c x : ℕ) (a b : Text) → x ≢ c → Lacks c a → Lacks c b → Lacks c (a ++ x ∷ b)
Lacks-append c x [] b n h k = (n, k)
Lacks-append c x (y ∷ a) b n (m, h) k = (m, Lacks-append c x a b n h k)

encode_pair-Lacks : (p : Text × Text) → IsEncodable p → Lacks b'&' (encode_pair p)
encode_pair-Lacks p (_, key, value) = Lacks-append b'&' b'=' p.0 p.1 (omega arith) key value

nothing : (r : HttpRequest) → foldl add_pair r (split b'&' []) ≡ r
unfolding split add_pair cut
nothing r = refl

set_query_parameters-assign :
    (ps : List (Text × Text)) (r : HttpRequest)
    → All IsEncodable ps
    → set_query_parameters (encode ps) r ≡ foldl assign r ps
unfolding set_query_parameters encode
set_query_parameters-assign [] r h = nothing r
set_query_parameters-assign (p ∷ []) r (h, _) =
    rw (split_of_Lacks b'&' (encode_pair p) (encode_pair-Lacks p h)) (add_pair-encode_pair r p h.0)
set_query_parameters-assign (p ∷ q ∷ ps) r (h, k) =
    rw (split-append b'&' (encode_pair p) (encode (q ∷ ps)) (encode_pair-Lacks p h)) (
      rw (foldl, add_pair-encode_pair r p h.0)
        (set_query_parameters-assign (q ∷ ps) (assign r p) k))

lookup-assign :
    (key : Text) (ps : List (Text × Text)) (r : HttpRequest)
    → lookup key (foldl assign r ps).query_parameters
      ≡ last_value key (lookup key r.query_parameters) ps
unfolding last_value
lookup-assign key [] r = refl
lookup-assign key (p ∷ ps) r =
    lookup-assign key ps (assign r p)
    ∙ ap (λ o. last_value key o ps) (lookup-insert p.0 key p.1 r.query_parameters)

-- Reading an encoded query string: a parameter has the value of the last pair with its key, and a
-- key that no pair has keeps the value that it had.
pub set_query_parameters-encode :
    (ps : List (Text × Text)) (r : HttpRequest) (key : Text)
    → All IsEncodable ps
    → get_query_parameters key (set_query_parameters (encode ps) r)
      ≡ or_empty (last_value key (lookup key r.query_parameters) ps)
set_query_parameters-encode ps r key h =
    rw (set_query_parameters-assign ps r h) (ap or_empty (lookup-assign key ps r))
