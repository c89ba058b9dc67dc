-- ===== src/Std/Text.antt =====
-- std::string as the list of its bytes, and the searches and cuts that the program makes.
use Prim.Native.Char.{code}
use Prim.Native.String.{String}
use mathlib.Core.Option
use http.Prelude.{
  ℕ, suc, ◌+◌, ◌≤◌, ◌≡◌, ◌≢◌, refl, Bool, true, false, ◌&&◌, ◌||◌, List, [], ◌∷◌, ◌++◌, Option,
  none, some, arith, leb, ◌==◌, if◌then◌else◌, length, All, Bool-cases, Option-cases, inl, inr,
}

abbrev pub Text : Type 0
Text = List ℕ

-- The bytes of an ASCII literal.
abbrev pub codes : String → Text
codes String.[] = []
codes (String.◌∷◌ c s) = code c ∷ codes s

abbrev pub is_empty : Text → Bool
is_empty [] = true
is_empty (_ ∷ _) = false

-- c_str() read as a C string: the bytes before the first 0.
unfoldable pub c_string : Text → Text
c_string [] = []
c_string (c ∷ s) = let rest = c_string s in if c == 0 then [] else c ∷ rest

-- isspace in the C locale: tab, newline, vertical tab, form feed, return, and space.
unfoldable pub isspace : ℕ → Bool
isspace c = (c == 32) || (leb 9 c && leb c 13)

unfoldable pub isdigit : ℕ → Bool
isdigit c = leb b'0' c && leb c b'9'

-- std::find of a byte: what stands before it and behind it, or `none` where it is not found.
unfoldable pub cut : ℕ → Text → Option (Text × Text)
cut c [] = none
cut c (x ∷ s) = if x == c then some ([], s) else Option.map (λ p. (x ∷ p.0, p.1)) (cut c s)

-- std::string::starts_with, or rfind(prefix, 0) == 0.
unfoldable pub starts_with : Text → Text → Bool
starts_with [] s = true
starts_with (c ∷ p) [] = false
starts_with (c ∷ p) (x ∷ s) = (c == x) && starts_with p s

-- std::string::find of a text: the first position, or `none` for npos.
unfoldable pub find : Text → Text → Option ℕ
unfolding starts_with
find p [] = if starts_with p [] then some 0 else none
find p (x ∷ s) = if starts_with p (x ∷ s) then some 0 else Option.map suc (find p s)

-- The parts of a text between the occurrences of a byte.
abbrev push_head : ℕ → List Text → List Text
push_head x [] = (x ∷ []) ∷ []
push_head x (p ∷ ps) = (x ∷ p) ∷ ps

unfoldable pub split : ℕ → Text → List Text
split c [] = [] ∷ []
split c (x ∷ s) = let parts = split c s in if x == c then [] ∷ parts else push_head x parts

abbrev pub Lacks : ℕ → Text → Type 0
Lacks c = All (λ x. x ≢ c)

-- The byte found by `cut` is the first one.
pub cut-Lacks :
    (c : ℕ) (s : Text) {a b : Text} → cut c s ≡ some (a, b) → (s ≡ a ++ c ∷ b) × Lacks c a
unfolding cut
cut-Lacks c [] h = absurd (ground arith)
cut-Lacks c (x ∷ s) {a} {b} h = elim (Option-cases (cut c s)) [
  | inl e ↦ ground arith
  | inr (p, e) ↦ ground (arith, cut-Lacks c s {a = p.0} {b = p.1} e)
]

pub cut-append : (c : ℕ) (a b : Text) → Lacks c a → cut c (a ++ c ∷ b) ≡ some (a, b)
unfolding cut
cut-append c [] b h = ground arith
cut-append c (x ∷ a) b (n, h) = ground (arith, cut-append c a b h)

pub cut-eq-none : (c : ℕ) (s : Text) → Lacks c s → cut c s ≡ none
unfolding cut
cut-eq-none c [] h = refl
cut-eq-none c (x ∷ s) (n, h) = ground (arith, cut-eq-none c s h)

-- A prefix test reads no more than the length of the prefix.
pub starts_with-append :
    (p s t : Text) → length p ≤ length s → starts_with p (s ++ t) ≡ starts_with p s
unfolding starts_with
starts_with-append [] s t h = refl
starts_with-append (c ∷ p) [] t h = absurd (omega arith)
starts_with-append (c ∷ p) (x ∷ s) t h = rw (starts_with-append p s t (omega arith))

pub starts_with-length : (p s : Text) → starts_with p s ≡ true → length p ≤ length s
unfolding starts_with
starts_with-length [] s h = omega arith
starts_with-length (c ∷ p) [] h = absurd (ground arith)
starts_with-length (c ∷ p) (x ∷ s) h = ground (arith, starts_with-length p s)

-- An occurrence ends inside the text.
pub find_bound : (p s : Text) {n : ℕ} → find p s ≡ some n → n + length p ≤ length s
unfolding find
find_bound p [] h = ground (arith, starts_with-length p [])
find_bound p (x ∷ s) {n} h = elim (Option-cases (find p s)) [
  | inl e ↦ ground (arith, starts_with-length p (x ∷ s))
  | inr (m, e) ↦ ground (arith, starts_with-length p (x ∷ s), find_bound p s {n = m} e)
]

-- The first occurrence stays the first when the text grows at its end.
pub find-append : (p s t : Text) {n : ℕ} → find p s ≡ some n → find p (s ++ t) ≡ some n
unfolding find
find-append [] [] [] h = h
find-append [] [] (y ∷ t) h = h
find-append (c ∷ p) [] t h = absurd (ground arith)
find-append p (x ∷ s) t {n} h = elim (Bool-cases (starts_with p (x ∷ s))) [
  | inl e ↦ rw (starts_with-append p (x ∷ s) t (starts_with-length p (x ∷ s) e), e) (ground arith)
  | inr e ↦ elim (Option-cases (find p s)) [
    | inl f ↦ absurd (ground arith)
    | inr (m, f) ↦
        let b = find_bound p s f in
        rw (starts_with-append p (x ∷ s) t (omega arith), e, find-append p s t f) (ground arith)
  ]
]

pub c_string-Lacks : (s : Text) → Lacks 0 s → c_string s ≡ s
unfolding c_string
c_string-Lacks [] h = refl
c_string-Lacks (c ∷ s) (d, h) = ground (arith, c_string-Lacks s h)
