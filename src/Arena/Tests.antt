-- ===== src/Arena/Tests.antt =====
-- arena/arena.go: runs of the arena, and each theorem at an input that meets its hypotheses.
use yakutil.Base.{suc, ◌≡◌, refl, none, some, List, [], ◌∷◌, arith, get_elem?}
use yakutil.Arena.Chunks.{
  Arena, Block, slice, new, aligned, take, switch, alloc_rounds, alloc, snap, restore,
}
use yakutil.Arena.Allocs.{IsValid, Granted, alloc-Granted, alloc-stuck}
use yakutil.Arena.Snapshots.{restore-snap}
use yakutil.Arena.Slices.{taken, switched, Steps, done, then, Kept, Steps-Kept}

program : Unit {0}
unfolding new aligned take switch alloc_rounds alloc snap restore
program = tt

-- one chunk of twenty bytes, eight of them used
abbrev some_used : Arena
some_used = record {
  heap = record { size = 20; off = 8 } ∷ [];
  cur = 0;
  csz = 20;
  chunks = 1;
  align_waste = 0;
}

some_used-IsValid : IsValid some_used
some_used-IsValid = record { c = record { size = 20; off = 8 }; current = refl; size = refl }

alloc_five : (a : Arena) × (alloc 1 some_used 5 ≡ some (a, slice 0 8 13 16))
unfolding program
alloc_five = ((take some_used 0 (record { size = 20; off = 8 }) 5).0, refl)

alloc-Granted_example : Granted some_used 5 (alloc (suc (suc 0)) some_used 5)
unfolding program
alloc-Granted_example = alloc-Granted 0 some_used 5 some_used-IsValid (omega arith) (omega arith)

-- 20 bytes are not more than a chunk, but 24 are.
alloc-stuck_example : alloc 1000 some_used 20 ≡ none
unfolding program
alloc-stuck_example =
    alloc-stuck 1000 some_used 20 some_used-IsValid (omega arith) (omega arith) (omega arith)

-- Five bytes are taken; another goroutine changes the chunk; three are taken from the old one.
abbrev first : Arena × List Block
first = (some_used, [])

abbrev second : Arena × List Block
unfolding program
second = (
  (take some_used 0 (record { size = 20; off = 8 }) 5).0,
  (take some_used 0 (record { size = 20; off = 8 }) 5).1 ∷ [],
)

run_of_two : Steps first (switch second.0, second.1)
unfolding program
run_of_two =
    then first second (switch second.0, second.1)
      (then first first second (done first)
        (taken some_used [] 0 (record { size = 20; off = 8 }) 5 refl (omega arith)))
      (switched second.0 second.1)

Steps-Kept_example : Kept (switch second.0, second.1)
Steps-Kept_example = Steps-Kept first (switch second.0, second.1) run_of_two (tt, tt)

restore-snap_example :
    (a : Arena) × (restore (switch second.0) (record { chk = 0; off = 8 }) ≡ some a)
    × (snap a ≡ some (record { chk = 0; off = 8 }))
    × (get_elem? a.heap a.cur ≡ get_elem? some_used.heap some_used.cur)
unfolding program
restore-snap_example =
    restore-snap first (switch second.0, second.1) (record { chk = 0; off = 8 }) some_used-IsValid
      refl run_of_two
