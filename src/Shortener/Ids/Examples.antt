-- ===== src/Shortener/Ids/Examples.antt =====
-- Tests of the ids, and the theorem at a concrete input.
use http.Prelude.{◌≡◌, refl, [], ◌∷◌}
use http.Std.Text.{codes}
use http.Shortener.Ids.{random_id, char_at, hex_digits, gen_trace_id}

random_id_test : random_id (0 ∷ 10 ∷ 36 ∷ 61 ∷ []) ≡ codes "0Aaz"
unfolding random_id char_at
random_id_test = refl

gen_trace_id_test : gen_trace_id 48879 ≡ codes "000000000000beef"
unfolding hex_digits
gen_trace_id_test = refl
