-- ===== src/Std/Number.antt =====
-- std::to_string of an unsigned number, std::atoi and std::stoi.
use http.Prelude.{
  ◌∙◌, sym, ap, append-nil, ◌==◌, ◌&&◌, ◌^◌, leb, false, Bool, ℕ, zero, suc, ◌+◌, ◌-◌, ◌*◌, ◌/◌,
  ◌%◌, ◌≤◌, ◌≡◌, refl, true, [], ◌∷◌, ◌++◌, arith, ltb, if◌then◌else◌, foldl, All, All-append,
  Bool-cases, inl, inr,
}
use http.Std.Text.{is_empty, Text, isspace, isdigit}

-- The decimal digits, most significant first. The fuel is the number itself: a number has no more
-- digits than its value, but for 0, which takes none of it.
digits : ℕ → ℕ → Text
digits zero n = (b'0' + n) ∷ []
digits (suc f) n =
    let front = digits f (n / 10) in
    if ltb n 10 then (b'0' + n) ∷ [] else front ++ (b'0' + n % 10) ∷ []

unfoldable pub to_string : ℕ → Text
unfolding digits
to_string n = digits n n

-- The value of the digits at the front, and what follows them.
unfoldable pub read_digits : ℕ → Text → ℕ × Text
read_digits acc [] = (acc, [])
read_digits acc (c ∷ s) =
    let more = read_digits (acc * 10 + (c - b'0')) s in if isdigit c then more else (acc, c ∷ s)

-- What follows the white space at the front.
unfoldable pub skip_space : Text → Text
skip_space [] = []
skip_space (c ∷ s) = let more = skip_space s in if isspace c then more else c ∷ s

-- What std::stoi makes of a text: an int, given by its absolute value, or one of its exceptions.
pub data IntResult : Type 0 where
  value negative : ℕ → IntResult
  invalid_argument out_of_range : IntResult

-- The range of a 32-bit int.
pub in_range : Bool → ℕ → IntResult
in_range true n = if leb n 2147483648 then negative n else out_of_range
in_range false n = if leb n 2147483647 then value n else out_of_range

unsigned_part : Bool → Text → IntResult
unsigned_part minus [] = invalid_argument
unsigned_part minus (c ∷ s) =
    if isdigit c then in_range minus (read_digits 0 (c ∷ s)).0 else invalid_argument

signed_part : Text → IntResult
signed_part [] = invalid_argument
signed_part (c ∷ s) =
    if c == b'-'
    then unsigned_part true s
    else if c == b'+'
    then unsigned_part false s
    else unsigned_part false (c ∷ s)

unfoldable pub stoi : Text → IntResult
unfolding signed_part unsigned_part
stoi s = signed_part (skip_space s)

-- The conversion of an int to a w-bit unsigned number.
abbrev pub to_unsigned : ℕ → IntResult → ℕ
to_unsigned w (value n) = n % 2 ^ w
to_unsigned w (negative n) = (2 ^ w - n) % 2 ^ w
to_unsigned w _ = 0

-- std::atoi, as the 32-bit pattern of its int: 0 where no number stands.
unfoldable pub atoi : Text → ℕ
unfolding stoi
atoi s = to_unsigned 32 (stoi s)

abbrev step : ℕ → ℕ → ℕ
step acc c = acc * 10 + (c - b'0')

foldl-append :
    (acc : ℕ) (xs ys : Text) → foldl step acc (xs ++ ys) ≡ foldl step (foldl step acc xs) ys
foldl-append acc [] ys = refl
foldl-append acc (x ∷ xs) ys = foldl-append (step acc x) xs ys

digits_value : (f n : ℕ) → n ≤ f → foldl step 0 (digits f n) ≡ n
unfolding digits
digits_value zero n h = omega arith
digits_value (suc f) n h = elim (Bool-cases (ltb n 10)) [
  | inl e ↦ rw e (ground arith)
  | inr e ↦ rw (e, foldl-append, digits_value f (n / 10) (ground arith)) (ground arith)
]

abbrev pub AllDigits : Text → Type 0
AllDigits = All (λ c. isdigit c ≡ true)

digits-AllDigits : (f n : ℕ) → n ≤ f → AllDigits (digits f n)
unfolding digits isdigit
digits-AllDigits zero n h = (ground arith, tt)
digits-AllDigits (suc f) n h = elim (Bool-cases (ltb n 10)) [
  | inl e ↦ rw e (ground arith, tt)
  | inr e ↦ rw e (
      All-append _ (digits f (n / 10)) _ (digits-AllDigits f (n / 10) (ground arith))
        (ground arith, tt))
]

-- A text of digits alone.
pub to_string-AllDigits : (n : ℕ) → AllDigits (to_string n)
unfolding to_string
to_string-AllDigits n = digits-AllDigits n n (omega arith)

read_digits-append :
    (acc : ℕ) (ds rest : Text)
    → AllDigits ds
    → read_digits acc (ds ++ rest) ≡ read_digits (foldl step acc ds) rest
unfolding read_digits
read_digits-append acc [] rest h = refl
read_digits-append acc (d ∷ ds) rest (p, h) = rw p (read_digits-append (step acc d) ds rest h)

-- Reading back what was printed, up to a byte that is no digit.
pub read_digits-to_string :
    (n : ℕ) (rest : Text) → read_digits 0 (to_string n ++ rest) ≡ read_digits n rest
unfolding to_string
read_digits-to_string n rest =
    rw (read_digits-append 0 (digits n n) rest (digits-AllDigits n n (omega arith)))
      (rw (digits_value n n (omega arith)))

digits-cons : (f n : ℕ) → (c : ℕ) × (s : Text) × (digits f n ≡ c ∷ s)
unfolding digits
digits-cons zero n = (b'0' + n, [], refl)
digits-cons (suc f) n = elim (Bool-cases (ltb n 10)) [
  | inl e ↦ (b'0' + n, [], rw e)
  | inr e ↦ let (c, s, h) = digits-cons f (n / 10) in (c, s ++ (b'0' + n % 10) ∷ [], rw (e, h))
]

digit_facts :
    (c : ℕ) → isdigit c ≡ true → (isspace c ≡ false) × ((c == b'-') ≡ false) × ((c == b'+') ≡ false)
unfolding isdigit isspace
digit_facts c h = ground arith

skip_space_of : (c : ℕ) (s : Text) → isspace c ≡ false → skip_space (c ∷ s) ≡ c ∷ s
unfolding skip_space
skip_space_of c s h = rw h

stoi_of_digit :
    (c : ℕ) (s : Text) → isdigit c ≡ true → stoi (c ∷ s) ≡ in_range false (read_digits 0 (c ∷ s)).0
unfolding stoi
stoi_of_digit c s h =
    let (space, minus, plus) = digit_facts c h in rw (skip_space_of c s space, minus, plus, h)

-- A printed number in the range of an int is read back, up to a byte that is no digit.
pub stoi-to_string :
    (n : ℕ) (rest : Text)
    → n ≤ 2147483647
    → (read_digits n rest).0 ≡ n
    → stoi (to_string n ++ rest) ≡ value n
unfolding in_range to_string
stoi-to_string n rest h e =
    let (c, s, q) = digits-cons n n in
    let d = rw q at (to_string-AllDigits n) in
    let r = rw (to_string, q) at (read_digits-to_string n rest) in
    rw (q, stoi_of_digit, d.0, r, e) (ground arith)

pub stoi-to_string_self : (n : ℕ) → n ≤ 2147483647 → stoi (to_string n) ≡ value n
unfolding read_digits
stoi-to_string_self n h = rw (append-nil (to_string n)) at (stoi-to_string n [] h refl)

pub is_empty-to_string : (n : ℕ) → is_empty (to_string n) ≡ false
unfolding to_string
is_empty-to_string n = let (c, s, e) = digits-cons n n in rw e

-- Different numbers are printed differently.
pub to_string_inj : (m n : ℕ) → to_string m ≡ to_string n → m ≡ n
unfolding read_digits
to_string_inj m n e =
    ap (λ (p : ℕ × Text). p.0)
      (sym (read_digits-to_string m [])
        ∙ ap (λ s. read_digits 0 (s ++ [])) e
        ∙ read_digits-to_string n [])

-- `> 0`, of an int that is given by its 32 bits
abbrev pub is_positive : ℕ → Bool
is_positive n = ltb 0 n && ltb n 2147483648
