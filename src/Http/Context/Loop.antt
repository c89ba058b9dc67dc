-- ===== src/Http/Context/Loop.antt =====
-- The loop of the parser: it ends, and bytes that arrive in pieces are parsed as if they had come
-- together.
use mathlib.Core.Option
use http.Prelude.{
  of_some, ℕ, zero, suc, ◌<◌, ◌≡◌, ◌≢◌, ◌⊎◌, refl, sym, ap, ◌∙◌, Bool, true, false, Option, none,
  some, arith, length, inl, inr, ◌++◌, length-append, subst,
}
use http.Std.Text.{Text}
use http.Http.Buffer.{Buffer, BufferLaws, bytes}
use http.Http.Context.{
  HttpContext, Step, more, stop, throw, got_all_state, round_of, parse_loop, parse_request,
  after_round, Parsed, returned, threw,
}
use http.Http.Context.Readable.{view, parse_request-view}
use http.Http.Context.Rounds.{Goes, round_of-Goes}
use http.Http.Context.Chunks.{grow, IsFinal, round_of-Continues}

-- What becomes of the round `s` is told by what becomes of the rounds behind it.
after_round_total :
    (rest : HttpContext → Text → Option (Parsed Text)) (n : ℕ)
    → ((c : HttpContext) (b : Text)
        → length b < n
        → c.state ≢ got_all_state
        → (p : Parsed Text) × (rest c b ≡ some p))
    → (s : Step Text) → Goes n s
    → (p : Parsed Text) × (after_round rest s ≡ some p)
unfolding after_round
after_round_total rest n h (more c b) (l, e) = h c b l e
after_round_total rest n h (stop ok c b) g =
    (record { verdict = returned ok; context = c; buffer = b }, refl)
after_round_total rest n h (throw c b) g =
    (record { verdict = threw; context = c; buffer = b }, refl)

parse_loop_total :
    (fuel time : ℕ) (c : HttpContext) (b : Text)
    → length b < fuel
    → c.state ≢ got_all_state
    → (p : Parsed Text) × (parse_loop bytes fuel time c b ≡ some p)
unfolding parse_loop
parse_loop_total zero time c b l h = absurd (omega arith)
parse_loop_total (suc fuel) time c b l h =
    after_round_total (parse_loop bytes fuel time) fuel (parse_loop_total fuel time)
      (round_of bytes c.state time c b) (round_of-Goes c.state time c b refl h (omega arith))

after_round_same :
    (rest rest' : HttpContext → Text → Option (Parsed Text)) (n : ℕ)
    → ((c : HttpContext) (b : Text) → length b < n → c.state ≢ got_all_state → rest c b ≡ rest' c b)
    → (s : Step Text) → Goes n s
    → after_round rest s ≡ after_round rest' s
unfolding after_round
after_round_same rest rest' n h (more c b) (l, e) = h c b l e
after_round_same rest rest' n h (stop ok c b) g = refl
after_round_same rest rest' n h (throw c b) g = refl

-- A parser that throws is not finished.
abbrev NotFinished : Option (Parsed Text) → Type 0
NotFinished o = (p : Parsed Text) → o ≡ some p → p.verdict ≡ threw → p.context.state ≢ got_all_state

after_round-NotFinished :
    (rest : HttpContext → Text → Option (Parsed Text)) (n : ℕ)
    → ((c : HttpContext) (b : Text) → c.state ≢ got_all_state → NotFinished (rest c b))
    → (s : Step Text) → Goes n s
    → NotFinished (after_round rest s)
unfolding after_round
after_round-NotFinished rest n h (more c b) (l, e) p q t = h c b e p q t
after_round-NotFinished rest n h (stop ok c b) g p q t =
    absurd (cc (ap (λ (x : Parsed Text). x.verdict) (of_some q)))
after_round-NotFinished rest n h (throw c b) g p q t =
    λ e. g (cc (ap (λ (x : Parsed Text). x.context.state) (of_some q)))

parse_loop-NotFinished :
    (fuel time : ℕ) (c : HttpContext) (b : Text)
    → c.state ≢ got_all_state
    → NotFinished (parse_loop bytes fuel time c b)
unfolding parse_loop
parse_loop-NotFinished zero time c b h = λ p q t. absurd (cc q)
parse_loop-NotFinished (suc fuel) time c b h =
    after_round-NotFinished (parse_loop bytes fuel time) (length b)
      (λ c' b' h'. parse_loop-NotFinished fuel time c' b' h') (round_of bytes c.state time c b)
      (round_of-Goes c.state time c b refl h (omega arith))

-- The result does not depend on the fuel, where it suffices.
pub parse_loop_same :
    (f g time : ℕ) (c : HttpContext) (b : Text)
    → length b < f
    → length b < g
    → c.state ≢ got_all_state
    → parse_loop bytes f time c b ≡ parse_loop bytes g time c b
unfolding parse_loop
parse_loop_same zero g time c b l k h = absurd (omega arith)
parse_loop_same (suc f) zero time c b l k h = absurd (omega arith)
parse_loop_same (suc f) (suc g) time c b l k h =
    after_round_same (parse_loop bytes f time) (parse_loop bytes g time) (length b)
      (λ c' b' l' h'. parse_loop_same f g time c' b' (omega arith) (omega arith) h')
      (round_of bytes c.state time c b) (round_of-Goes c.state time c b refl h (omega arith))

-- The parser has taken what it could, and waits for more bytes.
abbrev pub IsWaiting : {B : Type 0} → Parsed B → Type 0
IsWaiting p = (p.verdict ≡ returned true) × (p.context.state ≢ got_all_state)

-- What `more_bytes` behind the buffer make of a result: a waiting parser goes on with them, any
-- other has left them in the buffer.
abbrev Resumes : ℕ → Text → Parsed Text → Option (Parsed Text) → Type 0
Resumes time s p r =
    (IsWaiting p × (r ≡ parse_request bytes time p.context (p.buffer ++ s)))
    ⊎ ((¬ IsWaiting p) × (r ≡ some (record p { buffer = p.buffer ++ s })))

stop-Resumes :
    (time : ℕ) (s : Text) (ok : Bool) (c : HttpContext) (b : Text) (r : Option (Parsed Text))
    → IsFinal (stop ok c b)
    → r ≡ some (record { verdict = returned ok; context = c; buffer = b ++ s })
    → Resumes time s (record { verdict = returned ok; context = c; buffer = b }) r
stop-Resumes time s true c b r final e = inr ((λ w. w.1 final), e)
stop-Resumes time s false c b r final e = inr ((λ w. cc (w.0)), e)

after_round-Resumes :
    (time : ℕ) (s : Text) (rest rest' : HttpContext → Text → Option (Parsed Text)) (n : ℕ)
    → ((c : HttpContext) (b : Text)
        → length b < n
        → c.state ≢ got_all_state
        → (p : Parsed Text) → rest c b ≡ some p
        → Resumes time s p (rest' c (b ++ s)))
    → (x : Step Text) → Goes n x
    → IsFinal x
    → (p : Parsed Text) → after_round rest x ≡ some p
    → Resumes time s p (after_round rest' (grow s x))
unfolding after_round
after_round-Resumes time s rest rest' n ih (more c b) (l, h) final p e = ih c b l h p e
after_round-Resumes time s rest rest' n ih (stop ok c b) g final p e =
    subst (λ q. Resumes time s q (after_round rest' (stop ok c (b ++ s)))) (of_some e)
      (stop-Resumes time s ok c b _ final refl)
after_round-Resumes time s rest rest' n ih (throw c b) g final p e =
    subst (λ q. Resumes time s q (after_round rest' (throw c (b ++ s)))) (of_some e)
      (inr ((λ w. cc (w.0)), refl))

waits-Resumes :
    (time : ℕ) (s : Text) (c : HttpContext) (b : Text) (g : ℕ)
    → c.state ≢ got_all_state
    → length (b ++ s) < g
    → Resumes time s
        (record { verdict = returned true; context = c; buffer = b })
        (parse_loop bytes g time c (b ++ s))
unfolding parse_request
waits-Resumes time s c b g h l =
    inl ((refl, h), parse_loop_same g (suc (length (b ++ s))) time c (b ++ s) l (omega arith) h)

parse_loop-Resumes :
    (f g time : ℕ) (s : Text) (c : HttpContext) (b : Text) (p : Parsed Text)
    → length b < f
    → length (b ++ s) < g
    → c.state ≢ got_all_state
    → parse_loop bytes f time c b ≡ some p
    → Resumes time s p (parse_loop bytes g time c (b ++ s))
unfolding parse_loop after_round
parse_loop-Resumes zero g time s c b p l k h e = absurd (omega arith)
parse_loop-Resumes (suc f) zero time s c b p l k h e = absurd (omega arith)
parse_loop-Resumes (suc f) (suc g) time s c b p l k h e =
    elim (round_of-Continues s c.state time c b) [
      | inl waits ↦
          let e' = rw waits at e in
          subst (λ q. Resumes time s q (parse_loop bytes (suc g) time c (b ++ s))) (of_some e')
            (waits-Resumes time s c b (suc g) h k)
      | inr (grown, final) ↦ rw grown (
          after_round-Resumes time s (parse_loop bytes f time) (parse_loop bytes g time) (length b)
            (λ c' b' l' h' p' e'.
              parse_loop-Resumes f g time s c' b' p' (omega arith)
                (omega (arith, length-append b s, length-append b' s)) h' e')
            (round_of bytes c.state time c b) (round_of-Goes c.state time c b refl h (omega arith))
            final p e)
    ]

-- On plain bytes: an unfinished parser always returns or throws.
pub parse_bytes_total :
    (time : ℕ) (c : HttpContext) (b : Text)
    → c.state ≢ got_all_state
    → (p : Parsed Text) × (parse_request bytes time c b ≡ some p)
unfolding parse_request
parse_bytes_total time c b h = parse_loop_total (suc (length b)) time c b (omega arith) h

pub parse_bytes-Resumes :
    (time : ℕ) (s : Text) (c : HttpContext) (b : Text) (p : Parsed Text)
    → c.state ≢ got_all_state
    → parse_request bytes time c b ≡ some p
    → Resumes time s p (parse_request bytes time c (b ++ s))
unfolding parse_request
parse_bytes-Resumes time s c b p h e =
    parse_loop-Resumes (suc (length b)) (suc (length (b ++ s))) time s c b p (omega arith)
      (omega arith) h e

module _ (api : Buffer) (laws : BufferLaws api) where
  open api use {Buf, readable, append}

  pub parse_request_of_view :
      (time : ℕ) (c : HttpContext) (b : Buf) (q : Parsed Text)
      → parse_request bytes time c (readable b) ≡ some q
      → (p : Parsed Buf) × (parse_request api time c b ≡ some p) × (view readable p ≡ q)
  parse_request_of_view time c b q e =
      of_map (parse_request api time c b) (parse_request-view api laws time c b ∙ e)
    where
      of_map :
          (o : Option (Parsed Buf))
          → Option.map (view readable) o ≡ some q
          → (p : Parsed Buf) × (o ≡ some p) × (view readable p ≡ q)
      of_map none h = cc
      of_map (some p) h = (p, refl, of_some h)

  seen :
      (time : ℕ) (c : HttpContext) (b : Buf) (p : Parsed Buf)
      → parse_request api time c b ≡ some p
      → parse_request bytes time c (readable b) ≡ some (view readable p)
  seen time c b p e = rw e at (sym (parse_request-view api laws time c b))

  -- Unless the parser already has a whole request, `parseRequest` ends: it returns or throws.
  pub parse_request_total :
      (time : ℕ) (c : HttpContext) (b : Buf)
      → c.state ≢ got_all_state
      → (p : Parsed Buf) × (parse_request api time c b ≡ some p)
  parse_request_total time c b h =
      let (q, e) = parse_bytes_total time c (readable b) h in
      let (p, e', _) = parse_request_of_view time c b q e in (p, e')

  -- Bytes that arrive later: if the parser waits after the first bytes, then going on with
  -- `later` gives the verdict, the request and the bytes left over of one parse of all the bytes.
  pub parse_request-append_waiting :
      (time : ℕ) (c : HttpContext) (b : Buf) (later : Text) (p : Parsed Buf)
      → c.state ≢ got_all_state
      → parse_request api time c b ≡ some p
      → IsWaiting p
      → Option.map (view readable) (parse_request api time c (append later b))
        ≡ Option.map (view readable) (parse_request api time p.context (append later p.buffer))
  parse_request-append_waiting time c b later p h e w =
      elim (parse_bytes-Resumes time later c (readable b) (view readable p) h (seen time c b p e)) [
        | inl (_, r) ↦
            rw
              (
                parse_request-view api laws time c (append later b),
                parse_request-view api laws time p.context (append later p.buffer),
                laws.readable-append later b,
                laws.readable-append later p.buffer,
              )
              r
        | inr (n, _) ↦ absurd (n w)
      ]

  -- Otherwise the parser has finished, and all that the later bytes change is what it leaves in the
  -- buffer.
  pub parse_request-append_done :
      (time : ℕ) (c : HttpContext) (b : Buf) (later : Text) (p : Parsed Buf)
      → c.state ≢ got_all_state
      → parse_request api time c b ≡ some p
      → ¬ IsWaiting p
      → Option.map (view readable) (parse_request api time c (append later b))
        ≡ some (record (view readable p) { buffer = readable p.buffer ++ later })
  parse_request-append_done time c b later p h e n =
      elim (parse_bytes-Resumes time later c (readable b) (view readable p) h (seen time c b p e)) [
        | inl (w, _) ↦ absurd (n w)
        | inr (_, r) ↦
            rw (parse_request-view api laws time c (append later b), laws.readable-append later b) r
      ]

  -- A parser that throws has not finished its request.
  pub parse_request-threw :
      (time : ℕ) (c : HttpContext) (b : Buf) (p : Parsed Buf)
      → c.state ≢ got_all_state
      → parse_request api time c b ≡ some p
      → p.verdict ≡ threw
      → p.context.state ≢ got_all_state
  unfolding parse_request
  parse_request-threw time c b p h e t =
      parse_loop-NotFinished (suc (length (readable b))) time c (readable b) h (view readable p)
        (seen time c b p e) t
