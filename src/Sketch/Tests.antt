-- ===== src/Sketch/Tests.antt =====
-- sketch/sketch.go: a run, and each theorem at an input that meets its hypotheses.
use native.Mathlib.Decide.{ℕ_discrete}
use yakutil.Base.{ℕ, ◌*◌, ◌%◌, ◌^◌, ◌<◌, ◌≤◌, ◌≡◌, refl, some, List, [], ◌∷◌, ◌++◌, arith, ◌>>=◌}
use yakutil.Base.Int.{pos, negsuc}
use yakutil.Sketch.Counters.{
  Cms, new_sized, or_default, seeds_from, hash_idx, add_rows, least_row, add, count, merge,
}
use yakutil.Sketch.Fills.{run, amount}
use yakutil.Sketch.Estimates.{truth, run-count}
use yakutil.Sketch.Merges.{run-merge}

program : Unit {0}
unfolding new_sized or_default seeds_from hash_idx add_rows least_row add count run
program = tt

-- a hash of 64 bits
abbrev spread : ℕ → ℕ
spread n = n * 11400714819323198485 % 2 ^ 64

abbrev calls : List (ℕ × ℕ)
calls = (1, 3) ∷ (2, 4) ∷ (1, 5) ∷ []

count-calls : (run spread (new_sized 8 2) calls >>= λ c. count spread c 1) ≡ some (pos 8)
unfolding program
count-calls = refl

count_negative : (add spread (new_sized 8 2) 1 (negsuc 4) >>= λ c. count spread c 1) ≡ some (pos 0)
unfolding program
count_negative = refl

run-count_example :
    (c : Cms) × (n : ℕ) × (run spread (new_sized 8 2) calls ≡ some c)
    × (count spread c 1 ≡ some (pos n))
    × (truth ℕ_discrete 1 calls ≤ n)
    × (n ≤ amount calls)
    × (c.total ≡ pos (amount calls))
run-count_example = run-count ℕ_discrete spread 8 2 calls 1 small
  where
    small : amount calls < 2 ^ 63
    small = unfold amount in omega arith

run-merge_example :
    (c : Cms) × (c' : Cms) × (c'' : Cms) × (run spread (new_sized 8 2) calls ≡ some c)
    × (run spread (new_sized 8 2) ((7, 2) ∷ []) ≡ some c')
    × (merge c c' ≡ some c'')
    × (run spread (new_sized 8 2) (calls ++ ((7, 2) ∷ [])) ≡ some c'')
run-merge_example = run-merge spread 8 2 calls ((7, 2) ∷ [])
