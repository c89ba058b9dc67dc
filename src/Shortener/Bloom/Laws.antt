-- ===== src/Shortener/Bloom/Laws.antt =====
-- The filter has no false negatives.
use native.Mathlib.Omega.{mod_fact}
use http.Prelude.{
  ℕ, zero, suc, ◌+◌, ◌/◌, ◌%◌, ◌<◌, ◌≡◌, ap, ◌∙◌, true, List, [], ◌∷◌, arith, length, ==_iff,
}
use http.Std.Text.{Text}
use http.Shortener.Bloom.{
  Bloom, new_bloom, set_bit, get_bit, position, add, might_contain, one_shifted, word_at,
  bloom_hash,
}
use http.Shortener.Bloom.Words.{
  bit, or_bits-right, bit-one_shifted, word_at-mark_word, length-mark_word, length-zeros,
  bit-mark_word,
}

mod_lt : (a m : ℕ) → 0 < m → a % m < m
mod_lt a zero h = absurd (omega (arith, h))
mod_lt a (suc n) h = mod_fact a n

-- As many words as the bits need.
pub record IsWf (f : Bloom) : Type 0 where
  pub some_bits : 0 < f.m
  pub words : length f.bits ≡ (f.m + 63) / 64

pub new_bloom-IsWf : (m : ℕ) → 0 < m → IsWf (new_bloom m)
unfolding new_bloom
new_bloom-IsWf m h = record { some_bits = h; words = length-zeros ((m + 63) / 64) }

set_bit-IsWf : (i : ℕ) (f : Bloom) → IsWf f → IsWf (set_bit i f)
unfolding set_bit
set_bit-IsWf i f w = record {
  some_bits = w.some_bits;
  words = length-mark_word (i / 64) (i % 64) f.bits ∙ w.words;
}

-- Every position is inside the words.
pub position_lt :
    (f : Bloom) (s : Text) (seed : ℕ) → IsWf f → position f s seed / 64 < length f.bits
position_lt f s seed w =
    let below : position f s seed < f.m = mod_lt (bloom_hash s seed) f.m w.some_bits in
    omega (arith, below, w.words)

get_bit-set_bit : (i : ℕ) (f : Bloom) → i / 64 < length f.bits → get_bit i (set_bit i f) ≡ true
unfolding get_bit set_bit
get_bit-set_bit i f l =
    let inside : i % 64 < 64 = omega arith in
    (==_iff _ 1).1 (
      ap (bit (i % 64)) (word_at-mark_word (i / 64) (i % 64) f.bits l)
      ∙ or_bits-right 64 (i % 64) (word_at (i / 64) f.bits) (one_shifted (i % 64)) inside
          (bit-one_shifted (i % 64)))

get_bit-kept : (i j : ℕ) (f : Bloom) → get_bit i f ≡ true → get_bit i (set_bit j f) ≡ true
unfolding get_bit set_bit
get_bit-kept i j f h =
    (==_iff _ 1).1
      (bit-mark_word (i / 64) (j / 64) (j % 64) (i % 64) f.bits (omega arith) ((==_iff _ 1).0 h))

-- The three bits of a text.
abbrev Has : Text → Bloom → Type 0
Has s f =
    (get_bit (position f s 0) f ≡ true)
    × (get_bit (position f s 1) f ≡ true)
    × (get_bit (position f s 2) f ≡ true)

Has-might_contain : (s : Text) (f : Bloom) → Has s f → might_contain s f ≡ true
unfolding might_contain
Has-might_contain s f (a, b, c) = ground arith

might_contain-Has : (s : Text) (f : Bloom) → might_contain s f ≡ true → Has s f
unfolding might_contain
might_contain-Has s f h = (ground arith, ground arith, ground arith)

set_bit-Has : (s : Text) (i : ℕ) (f : Bloom) → Has s f → Has s (set_bit i f)
unfolding set_bit
set_bit-Has s i f (a, b, c) = (get_bit-kept _ i f a, get_bit-kept _ i f b, get_bit-kept _ i f c)

pub add-IsWf : (s : Text) (f : Bloom) → IsWf f → IsWf (add s f)
unfolding add
add-IsWf s f w = set_bit-IsWf _ _ (set_bit-IsWf _ _ (set_bit-IsWf _ f w))

add-Has : (s t : Text) (f : Bloom) → Has s f → Has s (add t f)
unfolding add
add-Has s t f h = set_bit-Has s _ _ (set_bit-Has s _ _ (set_bit-Has s _ f h))

added-Has : (s : Text) (f : Bloom) → IsWf f → Has s (add s f)
unfolding add set_bit
added-Has s f w =
    let one = set_bit (position f s 0) f in
    let two = set_bit (position f s 1) one in
    let w1 = set_bit-IsWf (position f s 0) f w in
    let w2 = set_bit-IsWf (position f s 1) one w1 in
    (
      get_bit-kept _ _ two (get_bit-kept _ _ one (get_bit-set_bit _ f (position_lt f s 0 w))),
      get_bit-kept _ _ two (get_bit-set_bit _ one (position_lt one s 1 w1)),
      get_bit-set_bit _ two (position_lt two s 2 w2),
    )

-- What has been reported is reported also behind another text.
pub might_contain-kept :
    (s t : Text) (f : Bloom) → might_contain s f ≡ true → might_contain s (add t f) ≡ true
might_contain-kept s t f h = Has-might_contain s _ (add-Has s t f (might_contain-Has s f h))

pub might_contain-add : (s : Text) (f : Bloom) → IsWf f → might_contain s (add s f) ≡ true
might_contain-add s f w = Has-might_contain s _ (added-Has s f w)

abbrev pub add_all : List Text → Bloom → Bloom
add_all [] f = f
add_all (t ∷ ts) f = add_all ts (add t f)

add_all-Has : (s : Text) (ts : List Text) (f : Bloom) → Has s f → Has s (add_all ts f)
add_all-Has s [] f h = h
add_all-Has s (t ∷ ts) f h = add_all-Has s ts (add t f) (add-Has s t f h)

add_all-IsWf : (ts : List Text) (f : Bloom) → IsWf f → IsWf (add_all ts f)
add_all-IsWf [] f w = w
add_all-IsWf (t ∷ ts) f w = add_all-IsWf ts (add t f) (add-IsWf t f w)

-- A filter with at least one bit has no false negatives: whatever has been added before and behind a
-- text, the filter reports the text.
pub might_contain-added :
    (m : ℕ) (before : List Text) (s : Text) (behind : List Text)
    → 0 < m
    → might_contain s (add_all behind (add s (add_all before (new_bloom m)))) ≡ true
might_contain-added m before s behind pos =
    let f = add_all before (new_bloom m) in
    let w = add_all-IsWf before (new_bloom m) (new_bloom-IsWf m pos) in
    Has-might_contain s _ (add_all-Has s behind (add s f) (added-Has s f w))
