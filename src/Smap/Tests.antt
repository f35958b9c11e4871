-- ===== src/Smap/Tests.antt =====
-- smap/smap.go: runs of the maps, and each theorem at an input that meets its hypotheses.
use native.Mathlib.Decide.{ℕ_discrete}
use yakutil.Base.{
  ℕ, ◌+◌, ◌-◌, ◌*◌, ◌/◌, ◌%◌, ◌^◌, ◌≤◌, ◌<◌, ◌≡◌, refl, Bool, true, false, none, some, List, [],
  ◌∷◌, arith, length,
}
use yakutil.Base.Doubling.{double_while}
use yakutil.Base.Int.{u64_mod}
use yakutil.Smap.Shards
use yakutil.Smap.Shards.{
  Shard, Map, Map64, new, new64, shard64, range, range_shard, fibonacci, total64,
}
use yakutil.Smap.Entries.{entries}
use yakutil.Smap.Calls.{
  Call, Answer, found, done, chosen, perform, perform64, update, or_made, answer, after, answers,
  afters, run,
}
use yakutil.Smap.Runs.{Ran, new-run}
use yakutil.Smap.Fibonacci.{new64-run, new64-shard64}

program : Unit {0}
unfolding ℕ_discrete double_while Shards.lookup Shards.remove Shards.store Shards.get_at
    Shards.set_at Shards.del_at Shards.create Shards.get_or_set_at Shards.total Shards.bits_len new
    new64 shard64 Shards.shard Shards.get Shards.set Shards.del Shards.get_or_set Shards.get64
    Shards.set64 Shards.del64 Shards.get_or_set64 range range_shard perform perform64 update or_made
    answer after answers afters run
program = tt

-- two keys of one shard, one stored twice, one deleted and chosen anew
abbrev calls : List (Call ℕ ℕ)
calls =
    Call.set 1 10
    ∷ Call.set 5 50
    ∷ Call.set 1 11
    ∷ Call.get 5
    ∷ Call.get_or_set 1 12
    ∷ Call.del 5
    ∷ Call.get_or_set 5 51
    ∷ Call.get 1
    ∷ []

abbrev replies : List (Answer ℕ)
replies =
    done
    ∷ done
    ∷ done
    ∷ found (some 50)
    ∷ chosen 11 false
    ∷ done
    ∷ chosen 51 true
    ∷ found (some 11)
    ∷ []

abbrev identity : ℕ → ℕ
identity n = n

abbrev filled : Map ℕ ℕ
filled = record { shards = [] ∷ ((5, 51) ∷ (1, 11) ∷ []) ∷ [] ∷ [] ∷ []; mask = 3 }

run-calls :
    run (perform ℕ_discrete identity) (record { shards = [] ∷ [] ∷ [] ∷ [] ∷ []; mask = 3 }) calls
    ≡ some (filled, replies)
unfolding program
run-calls = refl

answers-calls : answers ℕ_discrete (λ k. none) calls ≡ replies
unfolding program
answers-calls = refl

shard64_seven : shard64 {V = ℕ} (record { shards = []; mask = 7; shift = 61 }) 7 ≡ 2
unfolding program
shard64_seven = refl

abbrev adding : ℕ → ℕ → ℕ → Bool × ℕ
adding sum k v = (true, sum + v)

range-filled : range (λ s. s) adding filled.shards 0 ≡ (true, 62)
unfolding program
range-filled = refl

new-run_example :
    (m : Map ℕ ℕ) × (m' : Map ℕ ℕ) × (new 3 ≡ some m)
    × (run (perform ℕ_discrete identity) m calls ≡ some (m', answers ℕ_discrete (λ k. none) calls))
    × Ran ℕ_discrete m'.shards (afters ℕ_discrete (λ k. none) calls)
new-run_example = new-run ℕ_discrete identity 3 calls (omega arith)

new64-run_example :
    (m : Map64 ℕ) × (m' : Map64 ℕ) × (new64 6 ≡ some m)
    × (run (perform64 ℕ_discrete) m calls ≡ some (m', answers ℕ_discrete (λ k. none) calls))
    × Ran ℕ_discrete m'.shards (afters ℕ_discrete (λ k. none) calls)
    × (total64 m' ≡ length (entries m'.shards))
new64-run_example = new64-run ℕ_discrete 6 calls (omega arith)

new64-shard64_example :
    (m : Map64 ℕ) × (k : ℕ) × (new64 6 ≡ some m)
    × (length m.shards ≡ 2 ^ k)
    × (6 ≤ 2 ^ k)
    × ((key : ℕ) → shard64 m key ≡ key * fibonacci % u64_mod / 2 ^ (64 - k))
    × ((i : ℕ) → i < 2 ^ k → (key : ℕ) × (key < u64_mod) × (shard64 m key ≡ i))
new64-shard64_example = new64-shard64 6 (omega arith)
