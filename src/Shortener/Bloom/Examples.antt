-- ===== src/Shortener/Bloom/Examples.antt =====
-- Tests of the Bloom filter, and the theorem at a concrete input.
use http.Prelude.{◌≡◌, refl, true, false, [], ◌∷◌, arith}
use http.Std.Text.{codes}
use http.Std.Bits.{xor_bits}
use http.Shortener.Bloom.{
  new_bloom, zeros, or_bits, one_shifted, shift_right, word_at, mark_word, set_bit, get_bit,
  bloom_hash, add, might_contain,
}
use http.Shortener.Bloom.Laws.{add_all, might_contain-added}

filtering : Unit {0}
unfolding new_bloom zeros or_bits one_shifted shift_right word_at mark_word set_bit get_bit
    bloom_hash add might_contain xor_bits
filtering = tt

empty_test : might_contain (codes "abc") (new_bloom 128) ≡ false
unfolding filtering
empty_test = refl

added_test : might_contain (codes "abc") (add (codes "abc") (new_bloom 128)) ≡ true
unfolding filtering
added_test = refl

might_contain-added_example :
    might_contain
      (codes "b")
      (add_all (codes "c" ∷ []) (add (codes "b") (add_all (codes "a" ∷ []) (new_bloom 1048576))))
    ≡ true
might_contain-added_example =
    might_contain-added 1048576 (codes "a" ∷ []) (codes "b") (codes "c" ∷ []) (omega arith)
