-- ===== src/Shortener/Bloom.antt =====
-- Bloom.h: the filter as its words of 64 bits.
pub mod Words
pub mod Laws
mod Examples
use http.Prelude.{
  ℕ, zero, suc, ◌+◌, ◌*◌, ◌/◌, ◌%◌, ◌^◌, Bool, true, false, ◌&&◌, List, [], ◌∷◌, if◌then◌else◌,
  foldl, ◌==◌,
}
use http.Std.Text.{Text}
use http.Std.Bits.{xor_bits}
use http.Shortener.HashRing.{hash_byte}
use http.Shortener.Handlers.{Filter}

pub record Bloom : Type 0 where
  pub bits : List ℕ
  pub m : ℕ

unfoldable pub zeros : ℕ → List ℕ
zeros zero = []
zeros (suc n) = 0 ∷ zeros n

unfoldable pub new_bloom : ℕ → Bloom
new_bloom m = record { bits = zeros ((m + 63) / 64); m = m }

-- `|` on the lowest `n` bits, `1 << i`, and `>>`
unfoldable pub or_bits : ℕ → ℕ → ℕ → ℕ
or_bits zero a b = 0
or_bits (suc n) a b = (if a % 2 == 1 then 1 else b % 2) + 2 * or_bits n (a / 2) (b / 2)

unfoldable pub one_shifted : ℕ → ℕ
one_shifted zero = 1
one_shifted (suc i) = 2 * one_shifted i

unfoldable pub shift_right : ℕ → ℕ → ℕ
shift_right zero a = a
shift_right (suc i) a = shift_right i (a / 2)

-- bits_[w], where a word behind the end reads as 0 and is not written
unfoldable pub word_at : ℕ → List ℕ → ℕ
word_at i [] = 0
word_at zero (w ∷ ws) = w
word_at (suc i) (w ∷ ws) = word_at i ws

unfoldable pub mark_word : ℕ → ℕ → List ℕ → List ℕ
mark_word i b [] = []
mark_word zero b (w ∷ ws) = or_bits 64 w (one_shifted b) ∷ ws
mark_word (suc i) b (w ∷ ws) = w ∷ mark_word i b ws

-- set and get
unfoldable pub set_bit : ℕ → Bloom → Bloom
set_bit i f = record f { bits = mark_word (i / 64) (i % 64) f.bits }

unfoldable pub get_bit : ℕ → Bloom → Bool
get_bit i f = shift_right (i % 64) (word_at (i / 64) f.bits) % 2 == 1

-- h
unfoldable pub bloom_hash : Text → ℕ → ℕ
bloom_hash s seed =
    xor_bits 64 (foldl hash_byte (xor_bits 64 1469598103934665603 seed) s)
      (seed * 11400714819323198485 % 2 ^ 64)

-- The position of the bit that the hash with `seed` has.
abbrev pub position : Bloom → Text → ℕ → ℕ
position f s seed = bloom_hash s seed % f.m

unfoldable pub add : Text → Bloom → Bloom
add s f =
    let one = set_bit (position f s 0) f in
    let two = set_bit (position one s 1) one in set_bit (position two s 2) two

unfoldable pub might_contain : Text → Bloom → Bool
might_contain s f =
    if get_bit (position f s 0) f
    then if get_bit (position f s 1) f then get_bit (position f s 2) f else false
    else false

abbrev pub bloom_filter : Filter Bloom
bloom_filter = record { add = add; might_contain = might_contain }
