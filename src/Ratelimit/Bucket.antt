-- ===== src/Ratelimit/Bucket.antt =====
-- ratelimit/ratelimit.go: the bucket, with AllowN when nobody comes between. The times are what the
-- clock reads, in nanoseconds. The int64 of tokens, which a refill can wrap to below zero, is kept
-- with `origin` added: it goes round at the end of a word as the source's does, in the same order.
use yakutil.Base.{
  ℕ, ◌+◌, ◌-◌, ◌*◌, ◌/◌, ◌%◌, ◌^◌, Bool, true, false, Option, none, some, ltb, ◌==◌, if◌then◌else◌,
  min,
}
use yakutil.Base.Int.{u64_mod}

-- what stands for no tokens
abbrev pub origin : ℕ
origin = 2 ^ 63

-- `tok + add` of int64
unfoldable pub sum_of : ℕ → ℕ → ℕ
sum_of tok add = (tok + add) % u64_mod

pub record Limiter : Type 0 where
  pub tokens : ℕ
  pub last_nano : ℕ
  pub rate : ℕ
  pub burst : ℕ
  pub interval : ℕ

-- `time.Second`
abbrev pub second : ℕ
second = 1000000000

-- a number below 1 counts as 1
unfoldable pub or_one : ℕ → ℕ
or_one n = if n == 0 then 1 else n

-- `New`, at a reading of the clock
unfoldable pub new : ℕ → ℕ → ℕ → Limiter
new rate burst now = record {
  tokens = origin + or_one burst;
  last_nano = now;
  rate = or_one rate;
  burst = or_one burst;
  interval = second / or_one rate;
}

-- `elapsed / l.interval`; a clock that has gone back counts as one that stands
unfoldable pub tokens_due : Limiter → ℕ → ℕ → ℕ
tokens_due l now last = (now - last) / l.interval

-- the refill of `AllowN`
unfoldable pub refill : Limiter → ℕ → Limiter
refill l now =
    let add = tokens_due l now l.last_nano in
    if ltb 0 add
    then record l {
      last_nano = l.last_nano + add * l.interval;
      tokens = min (sum_of l.tokens add) (origin + l.burst);
    }
    else l

-- the comparison and the deduction
unfoldable pub deduct : Limiter → ℕ → Limiter × Bool
deduct l need =
    if ltb l.tokens (origin + need)
    then (l, false)
    else (record l { tokens = l.tokens - need }, true)

-- `AllowN`; `none` is the panic of a division by zero. `Allow` is that of 1.
unfoldable pub allow_n : Limiter → ℕ → ℕ → Option (Limiter × Bool)
allow_n l now n =
    let need = or_one n in
    if ltb l.burst need
    then some (l, false)
    else if l.interval == 0
    then none
    else some (deduct (refill l now) need)

-- `Reset`, at a reading of the clock
unfoldable pub reset : Limiter → ℕ → Limiter
reset l now = record l { last_nano = now; tokens = origin + l.burst }
