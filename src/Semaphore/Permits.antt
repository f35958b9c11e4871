-- ===== src/Semaphore/Permits.antt =====
-- semaphore/semaphore.go: the semaphore and the atomic steps of its calls. `wake` is the number of
-- tokens in the channel; a receive from it takes one. Go's runtime chooses who goes on, and a
-- context is done when the environment says so.
use yakutil.Base.{
  ℕ, suc, ◌+◌, ◌-◌, ◌≤◌, ◌<◌, ◌≡◌, Option, none, some, List, ltb, ◌==◌, if◌then◌else◌, get_elem?,
  set,
}

pub record Semaphore : Type 0 where
  pub avail : ℕ
  pub wake : ℕ
  pub cap : ℕ

-- `New`; `none` is the panic on a capacity below 1
unfoldable pub new : ℕ → Option Semaphore
new n = if n == 0 then none else some (record { avail = n; wake = 0; cap = n })

-- Where a goroutine stands: in no call; in `Acquire` or `AcquireContext` before the loop, with a value
-- loaded that was above 0, or waiting at the channel; in `TryAcquireN` before the load of the loop, or
-- with a value loaded that was enough; in `ReleaseN` with tokens that it has still to send.
pub data Place : Type 0 where
  idle : Place
  looping : Place
  loaded : ℕ → Place
  waiting : Place
  trying : ℕ → Place
  tried : ℕ → ℕ → Place
  signalling : ℕ → Place

-- A goroutine, and the permits that its calls have got it.
pub record Caller : Type 0 where
  pub held : ℕ
  pub place : Place

-- `old := s.avail.Load(); old > 0`
unfoldable pub acquire_load : Semaphore → Place
acquire_load s = if ltb 0 s.avail then loaded s.avail else waiting

-- `s.avail.CompareAndSwap(old, old-1)`, and what follows, for a caller with `h` permits
unfoldable pub acquire_swap : Semaphore → ℕ → ℕ → Semaphore × Caller
acquire_swap s h old =
    if s.avail == old
    then (record s { avail = old - 1 }, record { held = h + 1; place = idle })
    else (s, record { held = h; place = waiting })

-- the load of `TryAcquireN`, which returns false if there are too few; `TryAcquire` is that of 1
unfoldable pub try_load : Semaphore → ℕ → Place
try_load s n = if ltb s.avail n then idle else tried n s.avail

-- `s.avail.CompareAndSwap(old, old-nn)`, and what follows
unfoldable pub try_swap : Semaphore → ℕ → ℕ → ℕ → Semaphore × Caller
try_swap s h n old =
    if s.avail == old
    then (record s { avail = old - n }, record { held = h + n; place = idle })
    else (s, record { held = h; place = trying n })

-- The test of `n` in `ReleaseN`, and `s.avail.Add(n)`; `none` is the panic on a number below 1, or on
-- too many. `Release` is that of 1.
unfoldable pub release_add : Semaphore → ℕ → Option Semaphore
release_add s n =
    if n == 0
    then none
    else if ltb s.cap (s.avail + n)
    then none
    else some (record s { avail = s.avail + n })

-- a round of the loop that sends the tokens, with `k` more after it; it ends where the channel is full
unfoldable pub signal : Semaphore → ℕ → Semaphore × Place
signal s k = if ltb s.wake s.cap then (record s { wake = s.wake + 1 }, signalling k) else (s, idle)

-- `Count`
abbrev pub count : Semaphore → ℕ
count s = s.cap - s.avail

-- One atomic step of one of the goroutines. Nobody releases more than what it has got.
pub data Step : Semaphore × List Caller → Semaphore × List Caller → Type 0 where
  acquires :
      (s : Semaphore) (l : List Caller) (i h : ℕ)
      → get_elem? l i ≡ some (record { held = h; place = idle })
      → Step (s, l) (s, set l i (record { held = h; place = looping }))
  load :
      (s : Semaphore) (l : List Caller) (i h : ℕ)
      → get_elem? l i ≡ some (record { held = h; place = looping })
      → Step (s, l) (s, set l i (record { held = h; place = acquire_load s }))
  swap :
      (s : Semaphore) (l : List Caller) (i h old : ℕ)
      → get_elem? l i ≡ some (record { held = h; place = loaded old })
      → 0 < old
      → Step (s, l) ((acquire_swap s h old).0, set l i (acquire_swap s h old).1)
  wake_up :
      (s : Semaphore) (l : List Caller) (i h : ℕ)
      → get_elem? l i ≡ some (record { held = h; place = waiting })
      → 0 < s.wake
      → Step (s, l) (record s { wake = s.wake - 1 }, set l i (record { held = h; place = looping }))
  gives_up :
      (s : Semaphore) (l : List Caller) (i h : ℕ)
      → get_elem? l i ≡ some (record { held = h; place = waiting })
      → Step (s, l) (s, set l i (record { held = h; place = idle }))
  tries :
      (s : Semaphore) (l : List Caller) (i h n : ℕ)
      → get_elem? l i ≡ some (record { held = h; place = idle })
      → 0 < n
      → n ≤ s.cap
      → Step (s, l) (s, set l i (record { held = h; place = trying n }))
  load_try :
      (s : Semaphore) (l : List Caller) (i h n : ℕ)
      → get_elem? l i ≡ some (record { held = h; place = trying n })
      → Step (s, l) (s, set l i (record { held = h; place = try_load s n }))
  swap_try :
      (s : Semaphore) (l : List Caller) (i h n old : ℕ)
      → get_elem? l i ≡ some (record { held = h; place = tried n old })
      → n ≤ old
      → Step (s, l) ((try_swap s h n old).0, set l i (try_swap s h n old).1)
  releases :
      (s s' : Semaphore) (l : List Caller) (i h n : ℕ)
      → get_elem? l i ≡ some (record { held = h; place = idle })
      → 0 < n
      → n ≤ h
      → release_add s n ≡ some s'
      → Step (s, l) (s', set l i (record { held = h - n; place = signalling n }))
  signals :
      (s : Semaphore) (l : List Caller) (i h k : ℕ)
      → get_elem? l i ≡ some (record { held = h; place = signalling (suc k) })
      → Step (s, l) ((signal s k).0, set l i (record { held = h; place = (signal s k).1 }))
  returns :
      (s : Semaphore) (l : List Caller) (i h : ℕ)
      → get_elem? l i ≡ some (record { held = h; place = signalling 0 })
      → Step (s, l) (s, set l i (record { held = h; place = idle }))

pub data Steps : Semaphore × List Caller → Semaphore × List Caller → Type 0 where
  done : (s : Semaphore × List Caller) → Steps s s
  after : (s t u : Semaphore × List Caller) → Steps s t → Step t u → Steps s u
