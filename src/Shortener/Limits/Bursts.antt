-- ===== src/Shortener/Limits/Bursts.antt =====
-- How many requests a limiter lets through at once.
use http.Prelude.{
  ℕ, zero, suc, ◌+◌, ◌-◌, ◌<◌, ◌≤◌, ◌≡◌, refl, ap, ◌∙◌, Bool, true, false, List, [], ◌∷◌, none,
  some, arith, if◌then◌else◌, ltb, leb, same_refl, text_eq,
}
use http.Std.Text.{Text}
use http.Std.Map.{lookup, insert, lookup-insert}
use http.Shortener.Limits.{
  Doubles, Bucket, RateLimiter, bucket_of, started, refilled, take_token, allow,
}

-- Small whole numbers are exact in doubles. `is_rate` tells the doubles that are finite and 0.0 or
-- more, of which no time at all makes 0.0.
pub record DoublesLaws {D : Type 0} (double : Doubles D) : Type 0 where
  pub whole : ℕ → D
  pub largest : ℕ
  pub is_rate : D → Bool
  pub seconds_none :
      (t : ℕ) (d : D) → is_rate d ≡ true → double.times (double.seconds t t) d ≡ double.zero_double
  pub plus_zero : (n : ℕ) → n ≤ largest → double.plus (whole n) double.zero_double ≡ whole n
  pub minimum_whole : (m n : ℕ) → n ≤ m → m ≤ largest → double.minimum (whole m) (whole n) ≡ whole n
  pub minus_one_whole : (n : ℕ) → suc n ≤ largest → double.minus_one (whole (suc n)) ≡ whole n
  pub none_left : double.at_least_one (whole 0) ≡ false
  pub some_left : (n : ℕ) → suc n ≤ largest → double.at_least_one (whole (suc n)) ≡ true

module _ {D : Type 0} (double : Doubles D) (now : ℕ) where
  -- what `n` calls of a client at the same time answer
  unfoldable pub answers : ℕ → Text → RateLimiter D → List Bool × RateLimiter D
  answers zero key r = ([], r)
  answers (suc n) key r =
      let (b, r') = allow double now key r in let (bs, r'') = answers n key r' in (b ∷ bs, r'')

-- how often `true` stands in a list
abbrev pub allowed_in : List Bool → ℕ
allowed_in [] = 0
allowed_in (b ∷ bs) = (if b then 1 else 0) + allowed_in bs

abbrev pub smaller : ℕ → ℕ → ℕ
smaller m n = if leb m n then m else n

module _ {D : Type 0} (double : Doubles D) (laws : DoublesLaws double) (now : ℕ) where
  open laws use {whole, largest}

  -- A bucket of `k` tokens at this time is not refilled.
  refilled_now :
      (rate : D) (m k : ℕ)
      → laws.is_rate rate ≡ true
      → k ≤ m
      → m ≤ largest
      → refilled double rate (whole m) now (record { tokens = whole k; last = now })
        ≡ record { tokens = whole k; last = now }
  unfolding refilled
  refilled_now rate m k f l h =
      ap (λ t. record { tokens = t; last = now })
        (ap (λ d. double.minimum (whole m) (double.plus (whole k) d)) (laws.seconds_none now rate f)
          ∙ ap (double.minimum (whole m)) (laws.plus_zero k (omega (arith, l, h)))
          ∙ laws.minimum_whole m k l h)

  -- The next call of the client finds `k` tokens.
  record IsReady (m k : ℕ) (key : Text) (r : RateLimiter D) : Type 0 where
    burst_whole : r.burst ≡ whole m
    found :
        started double r.burst now (bucket_of double key r)
        ≡ record { tokens = whole k; last = now }

  taken :
      (k : ℕ)
      → k ≤ largest
      → take_token double (record { tokens = whole k; last = now })
        ≡ (ltb 0 k, record { tokens = whole (k - 1); last = now })
  unfolding take_token
  taken zero h = rw (laws.none_left) refl
  taken (suc k) h = rw (laws.some_left k h, laws.minus_one_whole k h) ground arith

  abbrev holding : Text → RateLimiter D → ℕ → RateLimiter D
  holding key r k = record r {
    buckets = insert key (record { tokens = whole k; last = now }) r.buckets;
  }

  allow_ready :
      (m k : ℕ) (key : Text) (r : RateLimiter D)
      → laws.is_rate r.rate ≡ true
      → k ≤ m
      → m ≤ largest
      → IsReady m k key r
      → allow double now key r ≡ (ltb 0 k, holding key r (k - 1))
  unfolding allow
  allow_ready m k key r f l h w =
      let take_from = λ (b : Bucket D). take_token double b in
      ap (λ x. (x.0, record r { buckets = insert key x.1 r.buckets }))
        (ap (λ b. take_token double (refilled double r.rate r.burst now b)) w.found
          ∙ ap
              (λ d.
                take_token double
                  (refilled double r.rate d now (record { tokens = whole k; last = now })))
              w.burst_whole
          ∙ ap (take_token double) (refilled_now r.rate m k f l h)
          ∙ taken k (omega (arith, l, h)))

  started_now :
      (burst : D) (j : ℕ)
      → 0 < now
      → started double burst now (record { tokens = whole j; last = now })
        ≡ record { tokens = whole j; last = now }
  unfolding started
  started_now burst j pos = ground arith

  holding-IsReady :
      (m k j : ℕ) (key : Text) (r : RateLimiter D)
      → 0 < now
      → IsReady m k key r
      → IsReady m j key (holding key r j)
  unfolding started bucket_of
  holding-IsReady m k j key r pos w =
      let b : Bucket D = record { tokens = whole j; last = now } in
      let e : lookup key (insert key b r.buckets) ≡ some b =
        lookup-insert key key b r.buckets
        ∙ ap (λ t. if t then some b else lookup key r.buckets) (same_refl key) in
      record { burst_whole = w.burst_whole; found = rw (e, bucket_of) (started_now r.burst j pos) }

  allowed_ready :
      (n m k : ℕ) (key : Text) (r : RateLimiter D)
      → 0 < now
      → laws.is_rate r.rate ≡ true
      → k ≤ m
      → m ≤ largest
      → IsReady m k key r
      → allowed_in (answers double now n key r).0 ≡ smaller n k
  unfolding answers
  allowed_ready zero m k key r pos f l h w = ground arith
  allowed_ready (suc n) m k key r pos f l h w =
      let ih =
        allowed_ready n m (k - 1) key (holding key r (k - 1)) pos f (omega (arith, l)) h
          (holding-IsReady m k (k - 1) key r pos w) in
      ap (λ x. (if x.0 then 1 else 0) + allowed_in (answers double now n key x.1).0)
        (allow_ready m k key r f l h w)
      ∙ ground (arith, ih)

  -- Of `n` calls of a client that has not been seen before, all at one time that is not 0, as many are
  -- let through as the burst says, or all if there are fewer. The burst is a whole number that doubles
  -- hold exactly, and the rate is finite and not negative.
  pub allowed_burst :
      (n m : ℕ) (key : Text) (r : RateLimiter D)
      → 0 < now
      → laws.is_rate r.rate ≡ true
      → m ≤ largest
      → r.burst ≡ whole m
      → lookup key r.buckets ≡ none
      → allowed_in (answers double now n key r).0 ≡ smaller n m
  unfolding started bucket_of
  allowed_burst n m key r pos f h b none_yet =
      allowed_ready n m m key r pos f (omega arith) h (record {
        burst_whole = b;
        found = rw (none_yet, bucket_of) (ap (λ t. record { tokens = t; last = now }) b);
      })
