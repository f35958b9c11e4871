-- ===== src/Ratelimit/Waits.antt =====
-- ratelimit/ratelimit.go: AllowN when nobody comes between.
use native.Mathlib.Nat.{div-mul-le_self, le-div_iff_mul-le, div-eq_of_lt}
use yakutil.Base.{
  ℕ, ◌+◌, ◌-◌, ◌*◌, ◌/◌, ◌≤◌, ◌<◌, ◌≡◌, refl, sym, ◌∙◌, ap, inl, inr, true, false, none, some,
  arith, ltb, ◌==◌, Bool-cases, le→ltb,
}
use yakutil.Ratelimit.Bucket.{
  Limiter, origin, sum_of, tokens_due, new, or_one, second, refill, deduct, allow_n,
}

-- The refill is not ahead of the clock. If the sum is an int64, no fewer tokens are left than before,
-- and no more than `burst`.
refill-last :
    (l : Limiter) (now : ℕ)
    → l.last_nano ≤ now
    → origin ≤ l.tokens
    → l.tokens ≤ origin + l.burst
    → l.burst + (now - l.last_nano) / l.interval < origin
    → ((refill l now).last_nano ≤ now)
      × (l.last_nano ≤ (refill l now).last_nano)
      × (origin ≤ (refill l now).tokens)
      × ((refill l now).tokens ≤ origin + l.burst)
      × ((refill l now).burst ≡ l.burst)
      × ((refill l now).interval ≡ l.interval)
unfolding refill tokens_due sum_of
refill-last l now past some_in full small =
    elim (Bool-cases (ltb 0 ((now - l.last_nano) / l.interval))) [
      | inl some_due ↦ rw some_due (
        omega (arith, div-mul-le_self (now - l.last_nano) l.interval),
        omega arith,
        omega arith,
        omega arith,
        refl,
        refl,
      )
      | inr none_due ↦ rw none_due (past, omega arith, some_in, full, refl, refl)
    ]

-- After `need` intervals the refill brings `need` tokens, if the sum is an int64.
refill-need :
    (l : Limiter) (now need : ℕ)
    → 0 < l.interval
    → need ≤ l.burst
    → l.last_nano + need * l.interval ≤ now
    → origin ≤ l.tokens
    → l.tokens ≤ origin + l.burst
    → l.burst + (now - l.last_nano) / l.interval < origin
    → origin + need ≤ (refill l now).tokens
unfolding refill tokens_due sum_of
refill-need l now need up fits later some_in full small =
    let due : need ≤ (now - l.last_nano) / l.interval = (le-div_iff_mul-le up).1 (omega arith) in
    elim (Bool-cases (ltb 0 ((now - l.last_nano) / l.interval))) [
      | inl some_due ↦ rw some_due (omega arith)
      | inr none_due ↦ rw none_due (ground (arith, none_due, due))
    ]

-- Division by the same number, not 0, keeps the order.
div-le-div : (m n d : ℕ) → 0 < d → m ≤ n → m / d ≤ n / d
div-le-div m n d up le = (le-div_iff_mul-le up).1 (omega (arith, div-mul-le_self m d))

allow_n-deduct :
    (l : Limiter) (now n : ℕ)
    → 0 < l.interval
    → or_one n ≤ l.burst
    → allow_n l now n ≡ some (deduct (refill l now) (or_one n))
unfolding allow_n
allow_n-deduct l now n up fits =
    let not_zero : (l.interval == 0) ≡ false = ground (arith, up) in
    rw (le→ltb l.burst (or_one n) fits, not_zero) refl

deduct-enough :
    (l : Limiter) (need : ℕ)
    → origin + need ≤ l.tokens
    → deduct l need ≡ (record l { tokens = l.tokens - need }, true)
unfolding deduct
deduct-enough l need enough = rw (le→ltb l.tokens (origin + need) enough) refl

deduct-short : (l l' : Limiter) (need : ℕ) → deduct l need ≡ (l', false) → l ≡ l'
unfolding deduct
deduct-short l l' need h = elim (Bool-cases (ltb l.tokens (origin + need))) [
  | inl short ↦ ap (λ x. x.0) (rw short at h)
  | inr enough ↦ let wrong : true ≡ false = ap (λ x. x.1) (rw enough at h) in cc
]

-- On a limiter with no more tokens than its burst and none below zero, and an interval that is not 0,
-- when a call of AllowN for tokens within the burst has returned false, at a time that is not before
-- the last refill, then the same call returns true as many intervals later, or after that, if no
-- call comes between. The burst and the tokens that are due by then are to make less than 2^63.
pub allow_n-later :
    (l : Limiter) (now now' n : ℕ)
    → l.last_nano ≤ now
    → origin ≤ l.tokens
    → l.tokens ≤ origin + l.burst
    → 0 < l.interval
    → or_one n ≤ l.burst
    → now + or_one n * l.interval ≤ now'
    → l.burst + (now' - l.last_nano) / l.interval < origin
    → (l' : Limiter) → allow_n l now n ≡ some (l', false)
    → (l'' : Limiter) × (allow_n l' now' n ≡ some (l'', true))
allow_n-later l now now' n past some_in full up fits later small l' refused =
    let r = refill l now in
    let first_small : (now - l.last_nano) / l.interval ≤ (now' - l.last_nano) / l.interval =
      div-le-div (now - l.last_nano) (now' - l.last_nano) l.interval up (omega arith) in
    let (in_time, forth, still_in, still_full, burst, interval) =
      refill-last l now past some_in full (omega arith) in
    let both : some (deduct r (or_one n)) ≡ some (l', false) =
      sym (allow_n-deduct l now n up fits) ∙ refused in
    let same : r ≡ l' = deduct-short r l' (or_one n) cc in
    let then_small : (now' - r.last_nano) / r.interval ≤ (now' - l.last_nano) / l.interval =
      rw interval
        (div-le-div (now' - r.last_nano) (now' - l.last_nano) l.interval up (omega arith)) in
    let enough : origin + or_one n ≤ (refill r now').tokens =
      refill-need r now' (or_one n) (omega arith) (omega arith)
        (omega (arith, in_time, ap (λ x. or_one n * x) interval)) still_in (omega arith)
        (omega arith) in
    (
      record (refill r now') { tokens = (refill r now').tokens - or_one n },
      rw (← same) (
          allow_n-deduct r now' n (omega arith) (omega arith)
          ∙ ap some (deduct-enough (refill r now') (or_one n) enough)),
    )

or_one-pos : (n : ℕ) → 0 < n → or_one n ≡ n
unfolding or_one
or_one-pos n up = ground (arith, up)

-- Each call of AllowN for tokens within the burst panics, at any time, on a limiter that is made for
-- more than 10^9 tokens a second.
pub new-allow_n :
    (rate burst start now n : ℕ)
    → second < rate
    → or_one n ≤ or_one burst
    → allow_n (new rate burst start) now n ≡ none
unfolding new allow_n
new-allow_n rate burst start now n fast fits =
    let zero_interval : second / or_one rate ≡ 0 =
      rw (or_one-pos rate (omega arith)) (div-eq_of_lt fast) in
    rw (le→ltb (or_one burst) (or_one n) fits, zero_interval) refl
