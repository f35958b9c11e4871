-- ===== src/Smap/Held.antt =====
-- smap/smap.go: what the operations of Map do to what it holds for each key.
use native.Mathlib.Nat.{mod-lt}
use yakutil.Base.{ℕ, ◌-◌, ◌^◌, ◌≤◌, ◌≡◌, refl, Option, none, some, [], arith, ltb, replicate}
use yakutil.Base.Bits.{bit_and-mask, two-pow-pos}
use yakutil.Base.Doubling.{double_while-Rounded, int_rounds}
use yakutil.Smap.Shards
use yakutil.Smap.Shards.{Shard, Map, shard, lookup}
use yakutil.Smap.Entries.{entries, Distinct, Placed-Distinct}
use yakutil.Smap.Calls.{update, or_made}
use yakutil.Smap.Steps.{
  view, IsSharded, new-IsSharded, view-replicate, get_at-view, set_at-Changed, del_at-Changed,
  get_or_set_at-Changed,
}

module _ {K V : Type 0} (dec : Discrete K) where
  -- What the map has for a key.
  abbrev pub held : Map K V → K → Option V
  held m = view dec m.shards

  module _ (sum : K → ℕ) where
    -- Each key stands in its shard, and once, if at all.
    abbrev pub IsMap : Map K V → Type 0
    IsMap m = IsSharded dec (shard sum m) m.shards

    -- One key's value changed.
    pub record Became (m : Map K V) (k : K) (o : Option V) (m' : Map K V) : Type 0 where
      pub valid : IsMap m'
      pub seen : (j : K) → held m' j ≡ update dec (held m) k o j

    pub new-IsMap :
        (num : ℕ)
        → num ≤ 2 ^ 62
        → (m : Map K V) × (Shards.new num ≡ some m) × IsMap m × ((k : K) → held m k ≡ none)
    unfolding Shards.new shard
    new-IsMap num small =
        let r =
          double_while-Rounded (λ sz. ltb sz num) num int_rounds 2 (λ s le. refl) small
            (omega arith) (omega arith) in
        let m : Map K V = record { shards = replicate (2 ^ r.k) []; mask = 2 ^ r.k - 1 } in
        (
          m,
          rw r.found refl,
          new-IsSharded V dec (shard sum m) (2 ^ r.k)
              (λ k. rw (bit_and-mask r.k (sum k)) (mod-lt (sum k) (two-pow-pos r.k))),
          view-replicate dec (2 ^ r.k),
        )

    pub IsMap-Distinct : (m : Map K V) → IsMap m → Distinct dec (entries m.shards)
    IsMap-Distinct m v = Placed-Distinct dec (shard sum m) 0 m.shards v.placed

    module _ (m : Map K V) (v : IsMap m) (k : K) where
      pub get-held : Shards.get dec sum m k ≡ some (held m k)
      unfolding Shards.get
      get-held = get_at-view dec (shard sum m) m.shards v k

      pub set-Became :
          (x : V) → (m' : Map K V) × (Shards.set dec sum m k x ≡ some m') × Became m k (some x) m'
      unfolding Shards.set shard
      set-Became x =
          let (l, did, change) = set_at-Changed dec (shard sum m) m.shards v k x in
          (
            record m { shards = l },
            rw did refl,
            record { valid = change.valid; seen = change.seen },
          )

      pub del-Became : (m' : Map K V) × (Shards.del dec sum m k ≡ some m') × Became m k none m'
      unfolding Shards.del shard
      del-Became =
          let (l, did, change) = del_at-Changed dec (shard sum m) m.shards v k in
          (
            record m { shards = l },
            rw did refl,
            record { valid = change.valid; seen = change.seen },
          )

      pub get_or_set-Became :
          (x : V)
          → (m' : Map K V) × (Shards.get_or_set dec sum m k x
              ≡ some (m', (or_made (held m k) x).0, (or_made (held m k) x).1))
            × Became m k (some (or_made (held m k) x).0) m'
      unfolding Shards.get_or_set shard
      get_or_set-Became x =
          let (l, did, change) = get_or_set_at-Changed dec (shard sum m) m.shards v k x in
          (
            record m { shards = l },
            rw did refl,
            record { valid = change.valid; seen = change.seen },
          )
