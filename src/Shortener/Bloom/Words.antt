-- ===== src/Shortener/Bloom/Words.antt =====
-- Bits of a word, and of the words of a filter, after one of them has been set.
use http.Prelude.{ℕ, zero, suc, ◌/◌, ◌%◌, ◌<◌, ◌≡◌, refl, ap, ◌∙◌, List, [], ◌∷◌, arith, length}
use http.Shortener.Bloom.{or_bits, one_shifted, shift_right, word_at, mark_word, zeros}

-- the bit `i` of a word
abbrev pub bit : ℕ → ℕ → ℕ
bit i a = shift_right i a % 2

or_half : (n a b : ℕ) → or_bits (suc n) a b / 2 ≡ or_bits n (a / 2) (b / 2)
unfolding or_bits
or_half n a b = ground arith

or_low_left : (n a b : ℕ) → a % 2 ≡ 1 → or_bits (suc n) a b % 2 ≡ 1
unfolding or_bits
or_low_left n a b h = ground arith

or_low_right : (n a b : ℕ) → b % 2 ≡ 1 → or_bits (suc n) a b % 2 ≡ 1
unfolding or_bits
or_low_right n a b h = ground arith

pub or_bits-left : (n i a b : ℕ) → i < n → bit i a ≡ 1 → bit i (or_bits n a b) ≡ 1
unfolding shift_right
or_bits-left zero i a b l h = absurd (omega (arith, l))
or_bits-left (suc n) zero a b l h = or_low_left n a b h
or_bits-left (suc n) (suc i) a b l h =
    ap (bit i) (or_half n a b) ∙ or_bits-left n i (a / 2) (b / 2) (omega (arith, l)) h

pub or_bits-right : (n i a b : ℕ) → i < n → bit i b ≡ 1 → bit i (or_bits n a b) ≡ 1
unfolding shift_right
or_bits-right zero i a b l h = absurd (omega (arith, l))
or_bits-right (suc n) zero a b l h = or_low_right n a b h
or_bits-right (suc n) (suc i) a b l h =
    ap (bit i) (or_half n a b) ∙ or_bits-right n i (a / 2) (b / 2) (omega (arith, l)) h

one_half : (i : ℕ) → one_shifted (suc i) / 2 ≡ one_shifted i
unfolding one_shifted
one_half i = omega arith

pub bit-one_shifted : (i : ℕ) → bit i (one_shifted i) ≡ 1
unfolding shift_right one_shifted
bit-one_shifted zero = refl
bit-one_shifted (suc i) = ap (bit i) (one_half i) ∙ bit-one_shifted i

pub word_at-mark_word :
    (i b : ℕ) (ws : List ℕ)
    → i < length ws
    → word_at i (mark_word i b ws) ≡ or_bits 64 (word_at i ws) (one_shifted b)
unfolding word_at mark_word
word_at-mark_word i b [] l = absurd (omega (arith, l))
word_at-mark_word zero b (w ∷ ws) l = refl
word_at-mark_word (suc i) b (w ∷ ws) l = word_at-mark_word i b ws (omega (arith, l))

pub length-mark_word : (i b : ℕ) (ws : List ℕ) → length (mark_word i b ws) ≡ length ws
unfolding mark_word
length-mark_word i b [] = refl
length-mark_word zero b (w ∷ ws) = refl
length-mark_word (suc i) b (w ∷ ws) = ap suc (length-mark_word i b ws)

pub length-zeros : (n : ℕ) → length (zeros n) ≡ n
unfolding zeros
length-zeros zero = refl
length-zeros (suc n) = ap suc (length-zeros n)

-- A bit that is set stays set.
pub bit-mark_word :
    (i j b k : ℕ) (ws : List ℕ)
    → k < 64
    → bit k (word_at i ws) ≡ 1
    → bit k (word_at i (mark_word j b ws)) ≡ 1
unfolding word_at mark_word
bit-mark_word i j b k [] l h = h
bit-mark_word zero zero b k (w ∷ ws) l h = or_bits-left 64 k w (one_shifted b) l h
bit-mark_word zero (suc j) b k (w ∷ ws) l h = h
bit-mark_word (suc i) zero b k (w ∷ ws) l h = h
bit-mark_word (suc i) (suc j) b k (w ∷ ws) l h = bit-mark_word i j b k ws l h
