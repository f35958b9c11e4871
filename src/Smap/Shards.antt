-- ===== src/Smap/Shards.antt =====
-- smap/smap.go: the two sharded maps. A shard is a Go map, the list of its keys and values; `Map` and
-- `Map64` have the same operations on their shards, each with its own way to the shard of a key. The
-- hash of `Map`, of package hash/maphash, is a parameter, and so is the order in which Go
-- ranges over a map.
use Prim.Native.Nat.{bit_and}
use yakutil.Base
use yakutil.Base.{
  ℕ, zero, suc, ◌+◌, ◌-◌, ◌*◌, ◌/◌, ◌%◌, ◌^◌, Bool, true, false, Option, none, some, List, [], ◌∷◌,
  ltb, ◌>>=◌, length, get_elem?, replicate, if◌then◌else◌,
}
use yakutil.Base.Doubling.{double_while, int_rounds}
use yakutil.Base.Int.{u64_mod}
use mathlib.Core.Logic.{ite}

abbrev pub Shard : Type 0 → Type 0 → Type 0
Shard K V = List (K × V)

-- `Map`
pub record Map (K V : Type 0) : Type 0 where
  pub shards : List (Shard K V)
  pub mask : ℕ

-- `Map64`
pub record Map64 (V : Type 0) : Type 0 where
  pub shards : List (Shard ℕ V)
  pub mask : ℕ
  pub shift : ℕ

module _ {K V : Type 0} (dec : Discrete K) where
  -- `s.m[key]`, `delete(s.m, key)` and `s.m[key] = val`
  unfoldable pub lookup : K → Shard K V → Option V
  lookup k [] = none
  lookup k ((j, v) ∷ l) = ite (dec j k) (some v) (lookup k l)

  unfoldable pub remove : K → Shard K V → Shard K V
  remove k [] = []
  remove k ((j, v) ∷ l) = let rest = remove k l in ite (dec j k) rest ((j, v) ∷ rest)

  unfoldable pub store : K → V → Shard K V → Shard K V
  store k v l = (k, v) ∷ remove k l

  -- the operations on the shard at an index; `none` is an index out of range
  unfoldable pub get_at : List (Shard K V) → ℕ → K → Option (Option V)
  get_at shards i key = get_elem? shards i >>= λ s. some (lookup key s)

  unfoldable pub set_at : List (Shard K V) → ℕ → K → V → Option (List (Shard K V))
  set_at shards i key val = get_elem? shards i >>= λ s. some (Base.set shards i (store key val s))

  unfoldable pub del_at : List (Shard K V) → ℕ → K → Option (List (Shard K V))
  del_at shards i key = get_elem? shards i >>= λ s. some (Base.set shards i (remove key s))

  -- `GetOrSet`, where `made` is what the function given returns
  unfoldable pub create :
      List (Shard K V) → ℕ → K → V → Shard K V → Option V → List (Shard K V) × V × Bool
  create shards i key made s none = (Base.set shards i (store key made s), made, true)
  create shards i key made s (some v) = (shards, v, false)

  unfoldable pub get_or_set_at : List (Shard K V) → ℕ → K → V → Option (List (Shard K V) × V × Bool)
  get_or_set_at shards i key made =
      get_elem? shards i >>= λ s. some (create shards i key made s (lookup key s))

abbrev pub and_on : {S : Type 0} → Bool × S → (S → Bool × S) → Bool × S
and_on (true, s) next = next s
and_on (false, s) next = (false, s)

module _ {K V : Type 0} where
  -- `Len`
  unfoldable pub total : List (Shard K V) → ℕ
  total [] = 0
  total (s ∷ l) = length s + total l

  -- `Range`, first over one shard: whether to go on, and the state of the callback.
  unfoldable pub range_shard : {S : Type 0} → (S → K → V → Bool × S) → Shard K V → S → Bool × S
  range_shard fn [] s = (true, s)
  range_shard fn ((k, v) ∷ l) s = and_on (fn s k v) (range_shard fn l)

  -- Go ranges over a map in an order of its own.
  unfoldable pub range :
      {S : Type 0}
      → (Shard K V → Shard K V)
      → (S → K → V → Bool × S)
      → List (Shard K V)
      → S
      → Bool × S
  range order fn [] s = (true, s)
  range order fn (m ∷ l) s = and_on (range_shard fn (order m) s) (range order fn l)

  -- `New`; `none` is a loop that does not end
  unfoldable pub new : ℕ → Option (Map K V)
  new shards = double_while (λ sz. ltb sz shards) int_rounds 4 >>= λ sz.
      some (record { shards = replicate sz []; mask = sz - 1 })

-- `bits.Len`
unfoldable pub bits_len : ℕ → ℕ → ℕ
bits_len zero n = 0
bits_len (suc fuel) n = let rest = bits_len fuel (n / 2) in if ltb 0 n then suc rest else 0

-- `New64`
unfoldable pub new64 : {V : Type 0} → ℕ → Option (Map64 V)
new64 shards = double_while (λ sz. ltb sz shards) int_rounds 4 >>= λ sz.
    some (record { shards = replicate sz []; mask = sz - 1; shift = 64 - bits_len 64 (sz - 1) })

-- The multiplier of Fibonacci hashing, 2^64 over the golden ratio.
abbrev pub fibonacci : ℕ
fibonacci = 11400714819323198485

-- `Map64.shard`
unfoldable pub shard64 : {V : Type 0} → Map64 V → ℕ → ℕ
shard64 m key = bit_and (key * fibonacci % u64_mod / 2 ^ m.shift) m.mask

-- `Map.shard`
unfoldable pub shard : {K V : Type 0} → (K → ℕ) → Map K V → K → ℕ
shard sum64s_map m key = bit_and (sum64s_map key) m.mask

module _ {K V : Type 0} (dec : Discrete K) (sum64s_map : K → ℕ) where
  unfoldable pub get : Map K V → K → Option (Option V)
  get m key = get_at dec m.shards (shard sum64s_map m key) key

  unfoldable pub set : Map K V → K → V → Option (Map K V)
  set m key val =
      set_at dec m.shards (shard sum64s_map m key) key val >>= λ l. some (record m { shards = l })

  unfoldable pub del : Map K V → K → Option (Map K V)
  del m key =
      del_at dec m.shards (shard sum64s_map m key) key >>= λ l. some (record m { shards = l })

  unfoldable pub get_or_set : Map K V → K → V → Option (Map K V × V × Bool)
  get_or_set m key made = get_or_set_at dec m.shards (shard sum64s_map m key) key made >>= λ r.
      some (record m { shards = r.0 }, r.1, r.2)

module _ {V : Type 0} (dec : Discrete ℕ) where
  -- the operations of `Map64`, `Len` and `Range` of which are the same loops
  unfoldable pub get64 : Map64 V → ℕ → Option (Option V)
  get64 m key = get_at dec m.shards (shard64 m key) key

  unfoldable pub set64 : Map64 V → ℕ → V → Option (Map64 V)
  set64 m key val =
      set_at dec m.shards (shard64 m key) key val >>= λ l. some (record m { shards = l })

  unfoldable pub del64 : Map64 V → ℕ → Option (Map64 V)
  del64 m key = del_at dec m.shards (shard64 m key) key >>= λ l. some (record m { shards = l })

  unfoldable pub get_or_set64 : Map64 V → ℕ → V → Option (Map64 V × V × Bool)
  get_or_set64 m key made = get_or_set_at dec m.shards (shard64 m key) key made >>= λ r.
      some (record m { shards = r.0 }, r.1, r.2)

unfoldable pub total64 : {V : Type 0} → Map64 V → ℕ
unfolding total
total64 m = total m.shards

unfoldable pub range64 :
    {V S : Type 0} → (Shard ℕ V → Shard ℕ V) → (S → ℕ → V → Bool × S) → Map64 V → S → Bool × S
unfolding range
range64 order fn m s = range order fn m.shards s
