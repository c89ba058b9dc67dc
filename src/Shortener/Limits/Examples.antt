-- ===== src/Shortener/Limits/Examples.antt =====
-- The laws of doubles for whole numbers, and the theorem at a concrete input.
use http.Prelude.{list_beq, ◌∙◌, ap, ℕ, ◌-◌, ◌*◌, ◌≡◌, refl, true, false, [], ◌∷◌, arith}
use http.Std.Text.{codes}
use http.Std.Map.{lookup, insert}
use http.Shortener.Limits.{RateLimiter, allow, bucket_of, started, refilled, take_token}
use http.Shortener.Limits.Wholes.{wholes}
use http.Shortener.Limits.Bursts.{DoublesLaws, answers, allowed_in, allowed_burst}

minus_self : (t d : ℕ) → (t - t) * d ≡ 0
minus_self t d =
    let none_left : t - t ≡ 0 = omega arith in ap (λ x. x * d) none_left ∙ (omega arith)

wholes-DoublesLaws : DoublesLaws wholes
wholes-DoublesLaws = record {
  whole = λ n. n;
  largest = 9007199254740992;
  is_rate = λ d. true;
  seconds_none = λ t d h. minus_self t d;
  plus_zero = λ n h. omega arith;
  minimum_whole = λ m n h k. ground arith;
  minus_one_whole = λ n h. omega arith;
  none_left = refl;
  some_left = λ n h. ground arith;
}

abbrev limiter : RateLimiter ℕ
limiter = record { buckets = []; rate = 1; burst = 2 }

limiting : Unit {0}
unfolding lookup insert allow bucket_of started refilled take_token answers
limiting = tt

answers_test : (answers wholes 7 3 (codes "a") limiter).0 ≡ true ∷ true ∷ false ∷ []
unfolding limiting list_beq
answers_test = refl

allowed_burst_example : allowed_in (answers wholes 7 3 (codes "a") limiter).0 ≡ 2
unfolding wholes-DoublesLaws lookup
allowed_burst_example =
    allowed_burst wholes wholes-DoublesLaws 7 3 2 (codes "a") limiter (omega arith) refl
      (omega arith) refl refl
