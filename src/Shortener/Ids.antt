-- ===== src/Shortener/Ids.antt =====
-- ShortId.h, UrlValidator.h and Trace.h. What the generators draw are numbers, and std::regex is a
-- parameter.
mod Examples
use http.Prelude.{
  ◌-◌, ℕ, zero, suc, ◌+◌, ◌*◌, ◌/◌, ◌%◌, ◌^◌, ◌<◌, ◌≤◌, ◌≡◌, refl, sym, ap, ◌∙◌, Bool, true, false,
  ◌&&◌, ◌||◌, List, [], ◌∷◌, ◌++◌, Option, none, some, is_some, arith, if◌then◌else◌, leb, ◌==◌,
  length, length-append, All, foldl, map,
}
use native.Mathlib.Nat.{pow-suc}
use http.Std.Text.{Text, codes}

abbrev pub charset : Text
charset = codes "0123456789ABCDEFGHIJKLMNOPQRSTUVWXYZabcdefghijklmnopqrstuvwxyz"

-- charset()[i], with 0 behind the end
unfoldable pub char_at : ℕ → Text → ℕ
char_at i [] = 0
char_at zero (c ∷ s) = c
char_at (suc i) (c ∷ s) = char_at i s

-- ShortId::random, with what `dist` draws, each below 62
unfoldable pub random_id : List ℕ → Text
random_id [] = []
random_id (i ∷ draws) = char_at i charset ∷ random_id draws

-- UrlValidator::valid; `compile` compiles without regard to case
unfoldable pub valid_url : {Regex : Type 0} → (Text → Regex) → (Regex → Text → Bool) → Text → Bool
valid_url compile matches u = matches (compile (codes "^https?://[^" ++ (b'\\' ∷ codes "s]+$"))) u

-- genTraceId: `%016llx` of a number of 64 bits
abbrev hex_of : ℕ → ℕ
hex_of d = if leb d 9 then 48 + d else 87 + d

unfoldable pub hex_digits : ℕ → ℕ → Text
hex_digits zero x = []
hex_digits (suc n) x = hex_digits n (x / 16) ++ hex_of (x % 16) ∷ []

abbrev pub gen_trace_id : ℕ → Text
gen_trace_id x = hex_digits 16 x

-- The characters of the pattern of the redirect route.
abbrev pub is_link_char : ℕ → Bool
is_link_char c =
    (leb 65 c && leb c 90)
    || ((leb 97 c && leb c 122) || ((leb 48 c && leb c 57) || ((c == 95) || (c == 45))))

char_at-link_char :
    (s : Text)
    → All (λ c. is_link_char c ≡ true) s
    → (i : ℕ) → i < length s
    → is_link_char (char_at i s) ≡ true
unfolding char_at
char_at-link_char [] h i l = absurd (omega (arith, l))
char_at-link_char (c ∷ s) (a, h) zero l = a
char_at-link_char (c ∷ s) (a, h) (suc i) l = char_at-link_char s h i (omega (arith, l))

abbrev every_link_char : Text → Bool
every_link_char [] = true
every_link_char (c ∷ s) = is_link_char c && every_link_char s

every_link_char_lem : (s : Text) → every_link_char s ≡ true → All (λ c. is_link_char c ≡ true) s
every_link_char_lem [] h = tt
every_link_char_lem (c ∷ s) h = (ground arith, every_link_char_lem s (ground arith))

charset-link_chars : All (λ c. is_link_char c ≡ true) charset
charset-link_chars = every_link_char_lem charset refl

-- Every id that is generated has as many characters as were drawn, all of them such as the redirect
-- route accepts.
pub random_id-link_chars :
    (draws : List ℕ)
    → All (λ i. i < 62) draws
    → (length (random_id draws) ≡ length draws) × All (λ c. is_link_char c ≡ true) (random_id draws)
unfolding random_id
random_id-link_chars [] h = (refl, tt)
random_id-link_chars (i ∷ draws) (l, h) =
    let (n, a) = random_id-link_chars draws h in
    (ap suc n, (char_at-link_char charset charset-link_chars i l, a))

-- The digits are read back.
abbrev pub digit_of : ℕ → ℕ
digit_of c = if leb c 57 then c - 48 else c - 87

abbrev pub number_of : Text → ℕ → ℕ
number_of [] a = a
number_of (c ∷ s) a = number_of s (a * 16 + digit_of c)

number_of-append :
    (s : Text) (c a : ℕ) → number_of (s ++ c ∷ []) a ≡ number_of s a * 16 + digit_of c
number_of-append [] c a = refl
number_of-append (d ∷ s) c a = number_of-append s c (a * 16 + digit_of d)

digit_of-hex_of : (d : ℕ) → d < 16 → digit_of (hex_of d) ≡ d
digit_of-hex_of d h = ground arith

number_of-hex_digits : (n x : ℕ) → x < 16 ^ n → number_of (hex_digits n x) 0 ≡ x
unfolding hex_digits
number_of-hex_digits zero x h = omega (arith, h)
number_of-hex_digits (suc n) x h =
    let smaller : x / 16 < 16 ^ n = omega (arith, h, pow-suc 16 n) in
    number_of-append (hex_digits n (x / 16)) (hex_of (x % 16)) 0
    ∙ ap (λ y. y * 16 + digit_of (hex_of (x % 16))) (number_of-hex_digits n (x / 16) smaller)
    ∙ ap (λ d. x / 16 * 16 + d) (digit_of-hex_of (x % 16) (omega arith))
    ∙ (omega arith)
