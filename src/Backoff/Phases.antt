-- ===== src/Backoff/Phases.antt =====
-- backoff/backoff.go: which phase a round is in, and how long it sleeps.
use yakutil.Base.{
  ℕ, zero, suc, ◌+◌, ◌-◌, ◌*◌, ◌%◌, ◌^◌, ◌≤◌, ◌<◌, ◌≡◌, refl, arith, ltb, if◌then◌else◌, min,
}
use yakutil.Backoff.Spin.{
  Backoff, Action, hint, gosched, sleep, u32_mod, default_spin_n, default_yield_n, default_max,
  or_default, shift, delay, spin, reset,
}

-- the state after `k` rounds
abbrev pub spins : ℕ → Backoff → Backoff
spins zero b = b
spins (suc k) b = (spin (spins k b)).0

-- The sleep, as it is meant: one microsecond, doubled each time up to ten times, and `most` at most.
pub delay-min : (s most : ℕ) → delay s most ≡ min most (1000 * 2 ^ min s 10)
unfolding delay
delay-min s most =
    let capped : (if ltb 10 s then 10 else s) ≡ min s 10 = ground arith in rw capped (ground arith)

-- What round `k` after a reset is to do, with numbers that have no bound.
abbrev pub planned : (spin_n yield_n most k : ℕ) → Action
planned spin_n yield_n most k =
    if ltb k spin_n
    then hint
    else if ltb k (spin_n + yield_n)
    then gosched
    else sleep (min most (1000 * 2 ^ min (k - spin_n - yield_n) 10))

spins-settings :
    (k : ℕ) (b : Backoff)
    → ((spins k b).spin_n ≡ b.spin_n)
      × ((spins k b).yield_n ≡ b.yield_n)
      × ((spins k b).max_wait ≡ b.max_wait)
unfolding spin
spins-settings zero b = (refl, refl, refl)
spins-settings (suc k) b = spins-settings k b

spins-count : (k : ℕ) (b : Backoff) → b.n ≡ 0 → (spins k b).n ≡ min k (u32_mod - 1)
unfolding spin
spins-count zero b start = omega arith
spins-count (suc k) b start = ground (arith, spins-count k b start)

shift-sub :
    (n spin_n yield_n : ℕ)
    → n < u32_mod
    → spin_n + yield_n ≤ n
    → shift n spin_n yield_n ≡ n - spin_n - yield_n
unfolding shift
shift-sub n spin_n yield_n word below = omega arith

-- The sleeps agree, since a count that stays at its maximum is long past the tenth doubling.
same-sleep :
    (spin_n yield_n most n k : ℕ)
    → n ≡ min k (u32_mod - 1)
    → spin_n + yield_n + 11 < u32_mod
    → spin_n + yield_n ≤ n
    → delay (shift n spin_n yield_n) most ≡ min most (1000 * 2 ^ min (k - spin_n - yield_n) 10)
same-sleep spin_n yield_n most n k count fits below =
    let capped : min (n - spin_n - yield_n) 10 ≡ min (k - spin_n - yield_n) 10 = omega arith in
    rw
      (
        shift-sub n spin_n yield_n (omega arith) below,
        delay-min (n - spin_n - yield_n) most,
        capped,
      )
      refl

phase :
    (spin_n yield_n most n k : ℕ)
    → n ≡ min k (u32_mod - 1)
    → spin_n + yield_n + 11 < u32_mod
    → (if ltb n spin_n
        then hint
        else if ltb n ((spin_n + yield_n) % u32_mod)
        then gosched
        else sleep (delay (shift n spin_n yield_n) most))
      ≡ planned spin_n yield_n most k
phase spin_n yield_n most n k count fits =
    let sum : (spin_n + yield_n) % u32_mod ≡ spin_n + yield_n = omega arith in
    rw sum (ground (arith, same-sleep spin_n yield_n most n k count fits))

-- The rounds of Spin after a Reset, counted from 0, are planned with numbers that have no bound: the
-- first `SpinN` read the hint, `YieldN` more call Gosched, and the others sleep, for a microsecond at
-- first and twice as long in each round, up to ten times, but no longer than `MaxWait`. So round `k`
-- goes for every `k`, also beyond 32 bits, where the counter stays at its maximum. A setting of 0
-- stands for its default, and `SpinN` and `YieldN` are to leave eleven counts of 32 bits.
pub spin-planned :
    (b : Backoff) (k : ℕ)
    → or_default b.spin_n default_spin_n + or_default b.yield_n default_yield_n + 11 < u32_mod
    → (spin (spins k (reset b))).1
      ≡ planned
          (or_default b.spin_n default_spin_n)
          (or_default b.yield_n default_yield_n)
          (or_default b.max_wait default_max)
          k
unfolding spin reset
spin-planned b k fits =
    let (same_spin, same_yield, same_max) = spins-settings k (reset b) in
    rw (same_spin, same_yield, same_max)
      (phase (or_default b.spin_n default_spin_n) (or_default b.yield_n default_yield_n)
        (or_default b.max_wait default_max) (spins k (reset b)).n k (spins-count k (reset b) refl)
        fits)
