-- ===== src/Shortener/Limits/Wholes.antt =====
-- Whole numbers in the place of doubles, for the theorems at concrete inputs.
use http.Prelude.{ℕ, ◌+◌, ◌-◌, ◌*◌, leb, ltb, if◌then◌else◌}
use http.Shortener.Limits.{Doubles}

abbrev pub wholes : Doubles ℕ
wholes = record {
  zero_double = 0;
  plus = λ a b. a + b;
  times = λ a b. a * b;
  minimum = λ a b. if leb b a then b else a;
  minus_one = λ a. a - 1;
  at_least_one = λ a. ltb 0 a;
  seconds = λ t s. t - s;
}
