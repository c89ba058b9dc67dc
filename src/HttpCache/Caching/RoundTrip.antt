-- ===== src/HttpCache/Caching/RoundTrip.antt =====
-- A response that is packed into an entry and set from it again.
use http.Prelude.{
  All-append, ℕ, zero, suc, ◌≤◌, ◌≡◌, refl, sym, ap, ◌∙◌, List, [], ◌∷◌, ◌++◌, arith, All, length,
  take, foldl, append_assoc, append-nil, Ordering,
}
use http.Std.Text.{isdigit, Text, Lacks, cut-append, c_string-Lacks}
use http.Std.Number.{atoi, to_string, stoi-to_string_self, to_string-AllDigits}
use http.Std.Map.{insert_sorted, compare_text}
use http.Http.Response.{
  HttpResponse, status_line, version_and_code, add_header, clear_headers, set_status_line, set_body,
}
use http.HttpCache.{true, CachePolicy}
use http.HttpCache.Caching.{parse_status_line, set_from_entry, pack, add_each}

-- Headers in the order of a std::map, each key once.
abbrev pub Ascending : List (Text × Text) → Type 0
Ascending [] = Unit
Ascending (p ∷ ps) = All (λ q. compare_text q.0 p.0 ≡ Ordering.gt) ps × Ascending ps

insert_last :
    (k v : Text) (m : List (Text × Text))
    → All (λ p. compare_text k p.0 ≡ Ordering.gt) m
    → insert_sorted k v m ≡ m ++ (k, v) ∷ []
unfolding insert_sorted
insert_last k v [] h = refl
insert_last k v (p ∷ m) (e, h) = rw (e, insert_sorted) (ap (λ rest. p ∷ rest) (insert_last k v m h))

-- Adding headers in their order, behind those that come before them, puts them at the end.
add_each_sorted :
    (hs : List (Text × Text)) (r : HttpResponse)
    → Ascending hs
    → All (λ q. All (λ p. compare_text q.0 p.0 ≡ Ordering.gt) r.headers) hs
    → foldl add_each r hs ≡ record r { headers = r.headers ++ hs }
unfolding add_header
add_each_sorted [] r a h = ap (λ x. record r { headers = x }) (sym (append-nil r.headers))
add_each_sorted (p ∷ hs) r (b, a) (e, h) =
    ap (λ x. foldl add_each (record r { headers = x }) hs) (insert_last p.0 p.1 r.headers e)
    ∙ add_each_sorted hs (record r { headers = r.headers ++ p ∷ [] }) a (later hs b h)
    ∙ ap (λ x. record r { headers = x }) (append_assoc r.headers (p ∷ []) hs)
  where
    later :
        (qs : List (Text × Text))
        → All (λ q. compare_text q.0 p.0 ≡ Ordering.gt) qs
        → All (λ q. All (λ x. compare_text q.0 x.0 ≡ Ordering.gt) r.headers) qs
        → All (λ q. All (λ x. compare_text q.0 x.0 ≡ Ordering.gt) (r.headers ++ p ∷ [])) qs
    later [] b h = tt
    later (q ∷ qs) (d, b) (k, h) = (All-append _ r.headers (p ∷ []) k (d, tt), later qs b h)

no_headers :
    (hs : List (Text × Text))
    → All (λ (q : Text × Text). All (λ (p : Text × Text). compare_text q.0 p.0 ≡ Ordering.gt) []) hs
no_headers [] = tt
no_headers (p ∷ hs) = (tt, no_headers hs)

digits_no_space : (s : Text) → All (λ c. isdigit c ≡ true) s → Lacks b' ' s
unfolding isdigit
digits_no_space [] h = tt
digits_no_space (c ∷ s) (d, h) = (ground arith, digits_no_space s h)

take_all : (n : ℕ) (s : Text) → length s ≤ n → take n s ≡ s
take_all zero [] h = refl
take_all zero (c ∷ s) h = absurd (omega arith)
take_all (suc n) [] h = refl
take_all (suc n) (c ∷ s) h = ap (λ t. c ∷ t) (take_all n s (omega arith))

atoi-to_string : (n : ℕ) → n ≤ 2147483647 → atoi (to_string n) ≡ n
unfolding atoi
atoi-to_string n h = rw (stoi-to_string_self n h) (omega arith)

-- A status line that fits into its buffer, with a version without spaces, is read back.
parse_status_line-status_line :
    (r : HttpResponse)
    → Lacks b' ' r.http_version
    → Lacks 0 r.http_version
    → length (r.http_version ++ b' ' ∷ (to_string r.status_code ++ b' ' ∷ [])) ≤ 63
    → r.status_code ≤ 2147483647
    → parse_status_line (status_line r) ≡ (r.http_version, r.status_code, r.status_message)
unfolding status_line version_and_code parse_status_line
parse_status_line-status_line r v z l c =
    let code = to_string r.status_code in
    let text = r.http_version ++ b' ' ∷ (code ++ b' ' ∷ []) in
    let whole : take 63 text ++ r.status_message
        ≡ r.http_version ++ b' ' ∷ (code ++ b' ' ∷ r.status_message) =
      ap (λ t. t ++ r.status_message) (take_all 63 text l)
      ∙ append_assoc r.http_version (b' ' ∷ (code ++ b' ' ∷ [])) r.status_message
      ∙ ap (λ t. r.http_version ++ b' ' ∷ t) (append_assoc code (b' ' ∷ []) r.status_message) in
    rw (
      c_string-Lacks r.http_version z,
      whole,
      cut-append b' ' r.http_version (code ++ b' ' ∷ r.status_message) v,
      parse_status_line,
      cut-append b' ' code r.status_message
          (digits_no_space code (to_string-AllDigits r.status_code)),
      atoi-to_string r.status_code c,
    )

-- A response that is packed and set from its entry is the response again, but for whether the
-- connection is to be closed. Its headers are in the order of a std::map, its version has no space
-- and no 0 byte, and its status line fits into the buffer of statusLine().
pub set_from_entry-pack :
    (p : CachePolicy) (now : ℕ) (r out : HttpResponse)
    → Ascending r.headers
    → Lacks b' ' r.http_version
    → Lacks 0 r.http_version
    → length (r.http_version ++ b' ' ∷ (to_string r.status_code ++ b' ' ∷ [])) ≤ 63
    → r.status_code ≤ 2147483647
    → set_from_entry (pack p now r) out ≡ record r { close_connection = out.close_connection }
unfolding set_from_entry pack
set_from_entry-pack p now r out sorted v z l c = rw (parse_status_line-status_line r v z l c) (
    ap (set_body r.body) (
      add_each_sorted r.headers
        (clear_headers (set_status_line r.http_version r.status_code r.status_message out)) sorted
        (no_headers r.headers)))
