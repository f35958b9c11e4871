-- ===== src/Lru/Cache.antt =====
-- lru/lru.go: the cache, an array of shards that a key's hash picks one of. The hash of package
-- hash/maphash, seeded by the process, is a parameter.
use yakutil.Base.{
  ℕ, zero, suc, ◌+◌, ◌-◌, ◌*◌, ◌^◌, ◌≤◌, ◌<◌, Option, none, some, List, [], ◌∷◌, ltb, ◌>>=◌, length,
  map, get_elem?, replicate,
}
use Prim.Native.Nat.{bit_and}
use yakutil.Base
use yakutil.Base.Doubling.{double_while, int_rounds}
use yakutil.Lru.Shard
use yakutil.Lru.Shard.{Node, Shard}

pub record Cache (K V : Type 0) : Type 0 where
  pub shards : List (Shard K V)
  pub mask : ℕ

module _ {K V : Type 0} where
  -- `New` with a number of shards, a capacity for each and a time to live
  unfoldable pub new : ℕ → ℕ → ℕ → Option (Cache K V)
  new num_shards cap_per_shard ttl = double_while (λ sz. ltb sz num_shards) int_rounds 4 >>= λ sz.
      some (record { shards = replicate sz (Shard.init cap_per_shard ttl); mask = sz - 1 })

  -- `Len`
  unfoldable pub total : List (Shard K V) → ℕ
  total [] = 0
  total (s ∷ l) = Shard.len s + total l

  abbrev pub len : Cache K V → ℕ
  len c = total c.shards

  -- `Purge`
  unfoldable pub purge : Cache K V → Cache K V
  purge c = record c { shards = map Shard.purge c.shards }

module _ {K V : Type 0} (dec : Discrete K) (sum64s_map : K → ℕ) where
  -- `shardFor`: where the shard of a key stands
  unfoldable pub shard_for : Cache K V → K → ℕ
  shard_for c key = bit_and (sum64s_map key) c.mask

  abbrev with_shard : Cache K V → ℕ → Shard K V → Cache K V
  with_shard c i s = record c { shards = Base.set c.shards i s }

  -- `Get`, `Set` and `Del`, `none` being an index out of range
  unfoldable pub get : Cache K V → ℕ → K → Option (Cache K V × Option V)
  get c now key = get_elem? c.shards (shard_for c key) >>= λ s.
      let (s', found) = Shard.get dec s now key in some (with_shard c (shard_for c key) s', found)

  unfoldable pub set : Cache K V → ℕ → K → V → Option (Cache K V × Option (Node K V))
  set c now key val = get_elem? c.shards (shard_for c key) >>= λ s.
      let (s', victim) = Shard.set dec s now key val in
      some (with_shard c (shard_for c key) s', victim)

  unfoldable pub del : Cache K V → K → Option (Cache K V)
  del c key = get_elem? c.shards (shard_for c key) >>= λ s.
      some (with_shard c (shard_for c key) (Shard.del dec s key))
