-- ===== src/Semaphore/Tests.antt =====
-- semaphore/semaphore.go: runs, and each theorem at an input that meets its hypotheses.
use yakutil.Base.{ℕ, ◌+◌, ◌-◌, ◌≤◌, ◌<◌, ◌≡◌, refl, some, none, [], ◌∷◌, arith, get_elem?}
use yakutil.Semaphore.Permits.{
  Semaphore, Caller, idle, waiting, new, acquire_load, acquire_swap, try_load, try_swap,
  release_add, signal, Steps,
}
use yakutil.Semaphore.Holders.{Balanced, holders, Steps-Balanced}
use yakutil.Semaphore.Sleeps.{caller, acquire-sleeps}

program : Unit {0}
unfolding new acquire_load acquire_swap try_load try_swap release_add signal
program = tt

abbrev full : Semaphore
full = record { avail = 2; wake = 0; cap = 2 }

new-full : new 2 ≡ some full
unfolding program
new-full = refl

all_at_once : try_swap full 1 2 2 ≡ (record { avail = 0; wake = 0; cap = 2 }, caller 3 idle)
unfolding program
all_at_once = refl

too_few : try_load (record { avail = 1; wake = 0; cap = 2 }) 2 ≡ idle
unfolding program
too_few = refl

panics : (release_add full 1 ≡ none) × (release_add full 0 ≡ none)
unfolding program
panics = (refl, refl)

acquire-sleeps_example :
    Steps
      (full, caller 0 idle ∷ caller 0 idle ∷ [])
      (record { avail = 2 - 1; wake = 0; cap = 2 }, caller 0 waiting ∷ caller (0 + 1) idle ∷ [])
acquire-sleeps_example = acquire-sleeps 2 (omega arith)

Steps-Balanced_example :
    Balanced
      (record { avail = 2 - 1; wake = 0; cap = 2 }, caller 0 waiting ∷ caller (0 + 1) idle ∷ [])
    × (holders (caller 0 waiting ∷ caller (0 + 1) idle ∷ []) ≤ 2)
    × ((i n : ℕ) (c : Caller)
        → get_elem? (caller 0 waiting ∷ caller (0 + 1) idle ∷ []) i ≡ some c
        → 0 < n
        → n ≤ c.held
        → (s' : Semaphore) × (release_add (record { avail = 2 - 1; wake = 0; cap = 2 }) n
            ≡ some s'))
Steps-Balanced_example =
    Steps-Balanced (full, caller 0 idle ∷ caller 0 idle ∷ [])
      (record { avail = 2 - 1; wake = 0; cap = 2 }, caller 0 waiting ∷ caller (0 + 1) idle ∷ [])
      (acquire-sleeps 2 (omega arith)) refl
