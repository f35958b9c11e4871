-- ===== src/Spsc/Tests.antt =====
-- spsc/ring.go: runs of the ring, and the theorem at an input that meets its hypotheses.
use yakutil.Base.{ℕ, ◌≤◌, ◌≡◌, refl, some, List, [], ◌∷◌, ◌++◌, arith, length}
use yakutil.Base.Doubling.{Rounded, double_while}
use yakutil.Spsc.Slots.{
  Ring, Event, refused, System, Steps, new, sized, is_full, push_start, push_refresh, push_write,
  push_publish, pop_start, pop_reload, pop_release, clear_slot, read_slot, writing, reading, len,
  cap,
}
use yakutil.Spsc.Queue.{Runs, values_in, values_out, at_start, new-Steps}

program : Unit {0}
unfolding double_while new sized is_full push_start push_refresh push_write push_publish pop_start
    pop_reload pop_release clear_slot read_slot len cap
program = tt

-- two slots with 7 in the first, and with 8 in the second
abbrev one : Ring ℕ
one = record { buf = 7 ∷ 0 ∷ []; mask = 1; tail = 1; cached_head = 0; head = 0; cached_tail = 0 }

abbrev both : Ring ℕ
both = push_publish (push_write one 1 8) 1

new_two :
    new {T = ℕ} 0 1
    ≡ some (record {
      buf = 0 ∷ 0 ∷ [];
      mask = 1;
      tail = 0;
      cached_head = 0;
      head = 0;
      cached_tail = 0;
    })
unfolding program
new_two = refl

push_goes_on : push_start one 8 ≡ writing 1 8
unfolding program
push_goes_on = refl

both_in : both.buf ≡ 7 ∷ 8 ∷ []
unfolding program
both_in = refl

push_is_refused : (push_refresh both 2 9).2 ≡ refused
unfolding program
push_is_refused = refl

pop_reads : (pop_reload both 0).1 ≡ reading 0
unfolding program
pop_reads = refl

pop_finds : read_slot 0 both 0 ≡ 7
unfolding program
pop_finds = refl

len_two : len both ≡ cap both
unfolding program
len_two = refl

new-Steps_example :
    (r : Ring ℕ) × (new 0 3 ≡ some r)
    × Rounded 1 3 (some (length r.buf))
    × ((t : System ℕ) (l : List (Event ℕ))
        → Steps 0 (at_start r) l t
        → (q : List ℕ) × Runs (length r.buf) l q
          × (values_in l ≡ values_out l ++ q)
          × (length q ≤ length r.buf))
new-Steps_example = new-Steps 0 3 (omega arith)
