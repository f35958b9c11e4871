-- ===== src/Lru/Tests.antt =====
-- lru/lru.go: runs of the cache, and each theorem at an input that meets its hypotheses.
use native.Mathlib.Decide.{ℕ_discrete}
use yakutil.Base.{ℕ, ◌+◌, ◌≡◌, refl, true, Option, none, some, [], ◌∷◌, arith}
use yakutil.Base.Doubling.{double_while}
use yakutil.Base.Keyed.{find, unlink, last}
use yakutil.Lru.Shard
use yakutil.Lru.Shard.{Node, Shard}
use yakutil.Lru.Order.{IsValid}
use yakutil.Lru.Recency.{Looked, get-Looked}
use yakutil.Lru.Eviction.{Stored, set-Stored}
use yakutil.Lru.Cache
use yakutil.Lru.Cache.{Cache}
use yakutil.Lru.Range.{
  collect, collect_from, snapshot, visit, range_all, range_rounds, range_batch, range_batch-skips,
}
use yakutil.Lru.Sharding.{IsCache, new-IsCache, set-get}

program : Unit {0}
unfolding ℕ_discrete find unlink last double_while Shard.init Shard.purge Shard.push_front
    Shard.expired Shard.lookup Shard.move_to_front Shard.get Shard.unlink_oldest Shard.set Shard.del
    Cache.new Cache.total Cache.purge Cache.shard_for Cache.get Cache.set Cache.del collect
    collect_from snapshot visit range_all range_rounds range_batch
program = tt

-- two entries of three, 1 used after 2
abbrev two : Shard ℕ ℕ
two = record {
  items = 1 ∷ 2 ∷ [];
  order =
      record { key = 1; val = 10; created = 0 } ∷ record { key = 2; val = 20; created = 0 } ∷ [];
  cap = 2;
  ttl = 100;
}

two-IsValid : IsValid ℕ_discrete two
unfolding program
two-IsValid = record {
  linked = record {
    nodes = (refl, (refl, tt));
    keys = (refl, (refl, tt));
    agree = λ k. ground arith;
    count = refl;
  };
  bounded = omega arith;
}

get-two : (Shard.get ℕ_discrete two 50 2).1 ≡ some 20
unfolding program
get-two = refl

get_late : (Shard.get ℕ_discrete two 101 2).1 ≡ none
unfolding program
get_late = refl

get-Looked_example : Looked ℕ_discrete two 50 2 (Shard.get ℕ_discrete two 50 2)
get-Looked_example = get-Looked ℕ_discrete two 50 2 two-IsValid

set-two : (Shard.set ℕ_discrete two 7 3 30).1 ≡ some (record { key = 2; val = 20; created = 0 })
unfolding program
set-two = refl

set-Stored_example : Stored ℕ_discrete two 7 3 30 (Shard.set ℕ_discrete two 7 3 30)
set-Stored_example = set-Stored ℕ_discrete two 7 3 30 two-IsValid

-- The keys are their own hashes.
abbrev same : ℕ → ℕ
same k = k

set-get_example :
    let c : Cache ℕ ℕ = (new-IsCache ℕ_discrete 5 2 100 (omega arith)).0 in
    (c' : Cache ℕ ℕ) × (victim : Option (Node ℕ ℕ)) × (c'' : Cache ℕ ℕ) × (Cache.set ℕ_discrete same
        c 7 9 90
      ≡ some (c', victim))
    × IsCache ℕ_discrete 2 100 c'
    × (Cache.get ℕ_discrete same c' 107 9 ≡ some (c'', some 90))
    × IsCache ℕ_discrete 2 100 c''
set-get_example =
    set-get ℕ_discrete same ((new-IsCache ℕ_discrete 5 2 100 (omega arith)).0)
      ((new-IsCache ℕ_discrete 5 2 100 (omega arith)).2) 9 90 7 107 (omega arith)
      (λ on. omega arith)

-- The callback counts its calls; 0 stands for the empty string.
range_batch-skips_example :
    range_batch ℕ_discrete 0 5 (λ n. two) 50 1 (λ n k v. (n + 1, true)) 0 ≡ some (0, true)
unfolding program
range_batch-skips_example =
    range_batch-skips ℕ_discrete 0 4 (λ n. two) 50 1 (λ n k v. (n + 1, true)) 0 refl

range_two : range_all (λ n. two) 50 (λ n k v. (n + v, true)) 0 ≡ (30, true)
unfolding program
range_two = refl
