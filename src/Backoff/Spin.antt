-- ===== src/Backoff/Spin.antt =====
-- backoff/backoff.go: the counter and the three phases. A round is what it asks of the runtime, which
-- is not modelled; durations are nanoseconds, and a `MaxWait` below 0 is not covered.
use yakutil.Base.{ℕ, ◌+◌, ◌-◌, ◌*◌, ◌%◌, ◌^◌, ltb, ◌==◌, if◌then◌else◌}

pub record Backoff : Type 0 where
  pub n : ℕ
  pub spin_n : ℕ
  pub yield_n : ℕ
  pub max_wait : ℕ

-- What a round does: it reads the hint, calls Gosched, or sleeps.
pub data Action : Type 0 where
  hint : Action
  gosched : Action
  sleep : ℕ → Action

abbrev pub u32_mod : ℕ
u32_mod = 2 ^ 32

abbrev pub default_spin_n : ℕ
default_spin_n = 64

abbrev pub default_yield_n : ℕ
default_yield_n = 64

abbrev pub microsecond : ℕ
microsecond = 1000

abbrev pub default_max : ℕ
default_max = 1000 * microsecond

abbrev pub or_default : ℕ → ℕ → ℕ
or_default x default = if x == 0 then default else x

-- `n - spinN - yieldN` of 32-bit words
unfoldable pub shift : ℕ → ℕ → ℕ → ℕ
shift n spin_n yield_n = (n + (u32_mod - spin_n) + (u32_mod - yield_n)) % u32_mod

-- the sleep of the third phase
unfoldable pub delay : ℕ → ℕ → ℕ
delay shift max_wait =
    let d = microsecond * 2 ^ (if ltb 10 shift then 10 else shift) in
    if ltb max_wait d then max_wait else d

-- `Spin`
unfoldable pub spin : Backoff → Backoff × Action
spin b =
    let spin_n = or_default b.spin_n default_spin_n in
    let yield_n = or_default b.yield_n default_yield_n in
    let max_wait = or_default b.max_wait default_max in
    (
      record b { n = if ltb b.n (u32_mod - 1) then b.n + 1 else b.n },
      if ltb b.n spin_n
          then hint
          else if ltb b.n ((spin_n + yield_n) % u32_mod)
          then gosched
          else sleep (delay (shift b.n spin_n yield_n) max_wait),
    )

-- `Reset`
unfoldable pub reset : Backoff → Backoff
reset b = record b { n = 0 }
