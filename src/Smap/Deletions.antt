-- ===== src/Smap/Deletions.antt =====
-- smap/smap.go: Del of a key that is there makes the map one entry shorter.
use yakutil.Base
use yakutil.Base.{
  ℕ, zero, suc, ◌+◌, ◌≡◌, refl, sym, ◌∙◌, ap, Option, none, some, List, [], ◌∷◌, arith, length,
  get_elem?, get_elem?_within, ◌>>=◌,
}
use yakutil.Smap.Shards
use yakutil.Smap.Shards.{Shard, Map, shard, lookup, remove, total, del_at}
use yakutil.Smap.Entries.{Distinct, lookup-entries, Placed-get}
use yakutil.Smap.Held.{held, IsMap}

module _ {K V : Type 0} (dec : Discrete K) where
  remove_absent : (k : K) (s : Shard K V) → lookup dec k s ≡ none → remove dec k s ≡ s
  unfolding lookup remove
  remove_absent k [] h = refl
  remove_absent k ((j, v) ∷ s) h = ground (arith, remove_absent k s)

  same_key : (k j : K) (s : Shard K V) → j ≡ k → lookup dec j s ≡ none → lookup dec k s ≡ none
  same_key k j s p h = ap (λ i. lookup dec i s) (sym p) ∙ h

  length-remove :
      (k : K) (s : Shard K V) (v : V)
      → Distinct dec s
      → lookup dec k s ≡ some v
      → length (remove dec k s) + 1 ≡ length s
  unfolding lookup remove
  length-remove k [] v d h = cc
  length-remove k ((j, w) ∷ s) v d h =
      ground (arith, length-remove k s v, same_key k j s, remove_absent k s)

  total-set :
      (l : List (Shard K V)) (i : ℕ) (s s' : Shard K V)
      → get_elem? l i ≡ some s
      → total (Base.set l i s') + length s ≡ total l + length s'
  unfolding total
  total-set [] i s s' h = cc
  total-set (t ∷ l) zero s s' h = let same : length t ≡ length s = ap length (cc) in omega arith
  total-set (t ∷ l) (suc i) s s' h = omega (arith, total-set l i s s' h)

  pub total-del :
      (sum : K → ℕ) (m m' : Map K V) (k : K) (v : V)
      → IsMap dec sum m
      → held dec m k ≡ some v
      → Shards.del dec sum m k ≡ some m'
      → total m'.shards + 1 ≡ total m.shards
  unfolding Shards.del del_at
  total-del sum m m' k v valid there did =
      let (s, at) = get_elem?_within m.shards (shard sum m k) (valid.reached k) in
      let zero_on : 0 + shard sum m k ≡ shard sum m k = omega arith in
      let once = (Placed-get dec (shard sum m) 0 (shard sum m k) m.shards s valid.placed at).1 in
      let found : lookup dec k s ≡ some v =
        sym (
          lookup-entries dec (shard sum m) 0 (shard sum m k) k m.shards s valid.placed (omega arith)
            at)
        ∙ there in
      let after : Map K V = record m {
        shards = Base.set m.shards (shard sum m k) (remove dec k s);
      } in
      let step : some after ≡ some m' = rw at at (did) in
      let same : after ≡ m' = (cc) in
      let size : total m'.shards ≡ total after.shards =
        ap (λ (x : Map K V). total x.shards) (sym same) in
      omega (
        arith,
        length-remove k s v once found,
        total-set m.shards (shard sum m k) s (remove dec k s) at,
      )
