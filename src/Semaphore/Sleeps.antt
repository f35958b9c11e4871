-- ===== src/Semaphore/Sleeps.antt =====
-- semaphore/semaphore.go: Acquire can wait although a permit is free.
use mathlib.Core.Path.{subst}
use yakutil.Base.{
  ℕ, ◌+◌, ◌-◌, ◌≤◌, ◌<◌, ◌≡◌, ◌≢◌, refl, some, List, [], ◌∷◌, arith, lt→ltb, get_elem?, set,
}
use yakutil.Semaphore.Permits.{
  Semaphore, Caller, Place, idle, looping, loaded, waiting, acquire_load, acquire_swap, Step,
  acquires, load, swap, Steps, done, after,
}

abbrev pub caller : ℕ → Place → Caller
caller h p = record { held = h; place = p }

-- The three outcomes that the run below has.
loads :
    (s : Semaphore) (l : List Caller) (i h : ℕ)
    → get_elem? l i ≡ some (caller h looping)
    → 0 < s.avail
    → Step (s, l) (s, set l i (caller h (loaded s.avail)))
unfolding acquire_load
loads s l i h at free =
    let is_loaded : acquire_load s ≡ loaded s.avail =
      rw (acquire_load, lt→ltb 0 s.avail free) refl in
    subst (λ p. Step (s, l) (s, set l i (caller h p))) is_loaded (load s l i h at)

wins :
    (s : Semaphore) (l : List Caller) (i h : ℕ)
    → get_elem? l i ≡ some (caller h (loaded s.avail))
    → 0 < s.avail
    → Step (s, l) (record s { avail = s.avail - 1 }, set l i (caller (h + 1) idle))
unfolding acquire_swap
wins s l i h at free =
    let won : acquire_swap s h s.avail ≡ (record s { avail = s.avail - 1 }, caller (h + 1) idle) =
      ground arith in
    subst (λ r. Step (s, l) (r.0, set l i r.1)) won (swap s l i h s.avail at free)

loses :
    (s : Semaphore) (l : List Caller) (i h old : ℕ)
    → get_elem? l i ≡ some (caller h (loaded old))
    → 0 < old
    → s.avail ≢ old
    → Step (s, l) (s, set l i (caller h waiting))
unfolding acquire_swap
loses s l i h old at up other =
    let lost : acquire_swap s h old ≡ (s, caller h waiting) = ground arith in
    subst (λ r. Step (s, l) (r.0, set l i r.1)) lost (swap s l i h old at up)

-- A goroutine that has lost a CompareAndSwap in Acquire goes to sleep though a permit is free: with a
-- capacity of two or more, when two goroutines call Acquire on a new semaphore, one can come to wait
-- for a token, while only the other one holds a permit and there is no token.
pub acquire-sleeps :
    (n : ℕ)
    → 2 ≤ n
    → Steps
        (record { avail = n; wake = 0; cap = n }, caller 0 idle ∷ caller 0 idle ∷ [])
        (record { avail = n - 1; wake = 0; cap = n }, caller 0 waiting ∷ caller (0 + 1) idle ∷ [])
acquire-sleeps n two =
    let full : Semaphore = record { avail = n; wake = 0; cap = n } in
    let less : Semaphore = record { avail = n - 1; wake = 0; cap = n } in
    after _ (less, caller 0 (loaded n) ∷ caller (0 + 1) idle ∷ []) _
      (after _ (full, caller 0 (loaded n) ∷ caller 0 (loaded n) ∷ []) _
        (after _ (full, caller 0 (loaded n) ∷ caller 0 looping ∷ []) _
          (after _ (full, caller 0 looping ∷ caller 0 looping ∷ []) _
            (after _ (full, caller 0 looping ∷ caller 0 idle ∷ []) _
              (after _ (full, caller 0 idle ∷ caller 0 idle ∷ []) _ (done _)
                (acquires full (caller 0 idle ∷ caller 0 idle ∷ []) 0 0 refl))
              (acquires full (caller 0 looping ∷ caller 0 idle ∷ []) 1 0 refl))
            (loads full (caller 0 looping ∷ caller 0 looping ∷ []) 0 0 refl (omega arith)))
          (loads full (caller 0 (loaded n) ∷ caller 0 looping ∷ []) 1 0 refl (omega arith)))
        (wins full (caller 0 (loaded n) ∷ caller 0 (loaded n) ∷ []) 1 0 refl (omega arith)))
      (loses less (caller 0 (loaded n) ∷ caller (0 + 1) idle ∷ []) 0 0 n refl (omega arith)
        (λ e. omega arith))
