-- ===== src/Semaphore/Holders.antt =====
-- semaphore/semaphore.go: the permits that are free and those that are held make up the capacity.
use yakutil.Base.{
  ℕ, zero, suc, ◌+◌, ◌-◌, ◌≤◌, ◌<◌, ◌≡◌, refl, false, some, List, [], ◌∷◌, arith, ltb, ◌==◌, le→ltb,
  Bool-cases, inl, inr, get_elem?, set,
}
use yakutil.Semaphore.Permits.{
  Semaphore, Caller, acquire_swap, try_swap, release_add, signal, Step, acquires, load, swap,
  wake_up, gives_up, tries, load_try, swap_try, releases, signals, returns, Steps, done, after,
}

-- The permits that goroutines have got.
abbrev pub holders : List Caller → ℕ
holders [] = 0
holders (c ∷ l) = c.held + holders l

holders-set :
    (l : List Caller) (i : ℕ) (c c' : Caller)
    → get_elem? l i ≡ some c
    → holders (set l i c') + c.held ≡ holders l + c'.held
holders-set [] i c c' at = cc
holders-set (d ∷ l) zero c c' at = let one : d ≡ c = cc in rw one (omega arith)
holders-set (d ∷ l) (suc i) c c' at = omega (arith, holders-set l i c c' at)

held-le-holders :
    (l : List Caller) (i : ℕ) (c : Caller) → get_elem? l i ≡ some c → c.held ≤ holders l
held-le-holders [] i c at = cc
held-le-holders (d ∷ l) zero c at = let one : d ≡ c = cc in rw one (omega arith)
held-le-holders (d ∷ l) (suc i) c at = omega (arith, held-le-holders l i c at)

-- What a step moves between the semaphore and the goroutine that takes it.
abbrev Moved : Semaphore → ℕ → Semaphore → ℕ → Type 0
Moved s h s' h' = (s'.avail + h' ≡ s.avail + h) × (s'.cap ≡ s.cap)

acquire_swap-Moved :
    (s : Semaphore) (h old : ℕ)
    → 0 < old
    → Moved s h (acquire_swap s h old).0 (acquire_swap s h old).1.held
unfolding acquire_swap
acquire_swap-Moved s h old up = elim (Bool-cases (s.avail == old)) [
  | inl same ↦ rw same (ground arith, refl)
  | inr other ↦ rw other (refl, refl)
]

try_swap-Moved :
    (s : Semaphore) (h n old : ℕ)
    → n ≤ old
    → Moved s h (try_swap s h n old).0 (try_swap s h n old).1.held
unfolding try_swap
try_swap-Moved s h n old up = elim (Bool-cases (s.avail == old)) [
  | inl same ↦ rw same (ground arith, refl)
  | inr other ↦ rw other (refl, refl)
]

release_add-Moved :
    (s s' : Semaphore) (h n : ℕ) → n ≤ h → release_add s n ≡ some s' → Moved s h s' (h - n)
unfolding release_add
release_add-Moved s s' h n le ok = ground arith

signal-Moved : (s : Semaphore) (k h : ℕ) → Moved s h (signal s k).0 h
unfolding signal
signal-Moved s k h = ground arith

abbrev pub Balanced : Semaphore × List Caller → Type 0
Balanced (s, l) = s.avail + holders l ≡ s.cap

replaced :
    (s s' : Semaphore) (l : List Caller) (i : ℕ) (c c' : Caller)
    → get_elem? l i ≡ some c
    → Moved s c.held s' c'.held
    → Balanced (s, l)
    → Balanced (s', set l i c')
replaced s s' l i c c' at moved b = omega (arith, holders-set l i c c' at)

Step-Balanced : (s t : Semaphore × List Caller) → Step s t → Balanced s → Balanced t
Step-Balanced _ _ (acquires s l i h at) b = replaced s s l i _ _ at (refl, refl) b
Step-Balanced _ _ (load s l i h at) b = replaced s s l i _ _ at (refl, refl) b
Step-Balanced _ _ (swap s l i h old at up) b =
    replaced s (acquire_swap s h old).0 l i _ _ at (acquire_swap-Moved s h old up) b
Step-Balanced _ _ (wake_up s l i h at up) b =
    replaced s (record s { wake = s.wake - 1 }) l i _ _ at (refl, refl) b
Step-Balanced _ _ (gives_up s l i h at) b = replaced s s l i _ _ at (refl, refl) b
Step-Balanced _ _ (tries s l i h n at some_of within) b = replaced s s l i _ _ at (refl, refl) b
Step-Balanced _ _ (load_try s l i h n at) b = replaced s s l i _ _ at (refl, refl) b
Step-Balanced _ _ (swap_try s l i h n old at up) b =
    replaced s (try_swap s h n old).0 l i _ _ at (try_swap-Moved s h n old up) b
Step-Balanced _ _ (releases s s' l i h n at some_of le ok) b =
    replaced s s' l i _ _ at (release_add-Moved s s' h n le ok) b
Step-Balanced _ _ (signals s l i h k at) b =
    replaced s (signal s k).0 l i _ _ at (signal-Moved s k h) b
Step-Balanced _ _ (returns s l i h at) b = replaced s s l i _ _ at (refl, refl) b

release_add-held :
    (s : Semaphore) (l : List Caller) (i n : ℕ) (c : Caller)
    → Balanced (s, l)
    → get_elem? l i ≡ some c
    → 0 < n
    → n ≤ c.held
    → (s' : Semaphore) × (release_add s n ≡ some s')
unfolding release_add
release_add-held s l i n c b at up le =
    let some_of : (n == 0) ≡ false = ground (arith, up) in
    let within : ltb s.cap (s.avail + n) ≡ false =
      le→ltb s.cap (s.avail + n) (omega (arith, held-le-holders l i c at)) in
    (record s { avail = s.avail + n }, rw (some_of, within) refl)

-- Whatever steps goroutines take in Acquire, AcquireContext, TryAcquireN and ReleaseN, none of them
-- releasing more permits than it has got, the free permits and those that goroutines have got make up
-- the capacity, if they did at the start; so they have no more than the capacity. ReleaseN of one
-- or more permits, but no more than a goroutine has got, then does not panic.
pub Steps-Balanced :
    (s t : Semaphore × List Caller)
    → Steps s t
    → Balanced s
    → Balanced t
      × (holders t.1 ≤ t.0.cap)
      × ((i n : ℕ) (c : Caller)
          → get_elem? t.1 i ≡ some c
          → 0 < n
          → n ≤ c.held
          → (s' : Semaphore) × (release_add t.0 n ≡ some s'))
Steps-Balanced s t steps b =
    let b' = balanced s t steps b in
    (b', omega arith, λ i n c at up le. release_add-held t.0 t.1 i n c b' at up le)
  where
    balanced : (s t : Semaphore × List Caller) → Steps s t → Balanced s → Balanced t
    balanced _ _ (done s) b = b
    balanced _ _ (after s t u before step) b = Step-Balanced t u step (balanced s t before b)
