-- ===== src/Smap/Ranges.antt =====
-- smap/smap.go: Range, whatever the order in which Go ranges over the map of a shard.
use mathlib.Core.List.Perm
use mathlib.Core.List.{Perm}
use yakutil.Base.{ℕ, ◌≡◌, refl, ◌∙◌, sym, Bool, true, false, List, [], ◌∷◌, ◌++◌}
use yakutil.Smap.Shards.{Shard, range_shard, range, and_on, Map64, range64}
use yakutil.Smap.Entries.{entries}

module _ {K V : Type 0} where
  -- the entries in the order that Range has them
  in_order : (Shard K V → Shard K V) → List (Shard K V) → List (K × V)
  in_order order [] = []
  in_order order (s ∷ l) = order s ++ in_order order l

  in_order-perm :
      (order : Shard K V → Shard K V)
      → ((s : Shard K V) → Perm (order s) s)
      → (l : List (Shard K V)) → Perm (in_order order l) (entries l)
  unfolding in_order
  in_order-perm order h [] = Perm.refl []
  in_order-perm order h (s ∷ l) = Perm.append (h s) (in_order-perm order h l)

  module _ {S : Type 0} (fn : S → K → V → Bool × S) where
    range_shard-append :
        (a b : Shard K V) (s : S)
        → range_shard fn (a ++ b) s ≡ and_on (range_shard fn a s) (range_shard fn b)
    unfolding range_shard
    range_shard-append [] b s = refl
    range_shard-append ((k, v) ∷ a) b s = go (fn s k v) (range_shard-append a b)
      where
        go :
            (r : Bool × S)
            → ((t : S) → range_shard fn (a ++ b) t ≡ and_on (range_shard fn a t) (range_shard fn b))
            → and_on r (range_shard fn (a ++ b))
              ≡ and_on (and_on r (range_shard fn a)) (range_shard fn b)
        go (true, t) ih = ih t
        go (false, t) ih = refl

    range-in_order :
        (order : Shard K V → Shard K V) (l : List (Shard K V)) (s : S)
        → range order fn l s ≡ range_shard fn (in_order order l) s
    unfolding range range_shard in_order
    range-in_order order [] s = refl
    range-in_order order (m ∷ l) s =
        go (range_shard fn (order m) s) (range-in_order order l)
        ∙ sym (range_shard-append (order m) (in_order order l) s)
      where
        go :
            (r : Bool × S)
            → ((t : S) → range order fn l t ≡ range_shard fn (in_order order l) t)
            → and_on r (range order fn l) ≡ and_on r (range_shard fn (in_order order l))
        go (true, t) ih = ih t
        go (false, t) ih = refl

    -- If Go ranges over the map of a shard in some order of its entries, Range over the shards calls
    -- back on one entry after another, in some order, of all that the shards hold, until the callback
    -- returns false.
    pub range-perm :
        (order : Shard K V → Shard K V) (l : List (Shard K V)) (s : S)
        → ((m : Shard K V) → Perm (order m) m)
        → (visited : List (K × V)) × Perm visited (entries l)
          × (range order fn l s ≡ range_shard fn visited s)
    range-perm order l s h = (in_order order l, in_order-perm order h l, range-in_order order l s)

-- So does Range of the other map.
pub range64-perm :
    {S W : Type 0} (fn : S → ℕ → W → Bool × S) (order : Shard ℕ W → Shard ℕ W) (m : Map64 W) (s : S)
    → ((shard : Shard ℕ W) → Perm (order shard) shard)
    → (visited : List (ℕ × W)) × Perm visited (entries m.shards)
      × (range64 order fn m s ≡ range_shard fn visited s)
unfolding range64
range64-perm fn order m s h = range-perm fn order m.shards s h
