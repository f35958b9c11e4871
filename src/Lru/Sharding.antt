-- ===== src/Lru/Sharding.antt =====
-- lru/lru.go: every key has its shard, and what Set stores there Get finds.
use Prim.Native.Nat.{bit_and}
use native.Mathlib.Nat.{mod-lt}
use yakutil.Base
use yakutil.Base.{
  ℕ, zero, suc, ◌+◌, ◌-◌, ◌^◌, ◌%◌, ◌≤◌, ◌<◌, ◌≡◌, ◌⊎◌, inl, inr, refl, sym, ◌∙◌, ap, true, false,
  Option, none, some, List, [], ◌∷◌, arith, ltb, if◌then◌else◌, length, get_elem?, replicate,
  length-replicate, length-set, get_elem?-set_self, get_elem?-set_one, get_elem?_within,
  get_elem?-replicate, map, take, ◌>>=◌, ◌&&◌,
}
use yakutil.Base.Bits.{bit_and-mask, two-pow-pos}
use yakutil.Base.Doubling.{Rounded, double_while-Rounded, int_rounds}
use yakutil.Base.Keyed.{find, unlink}
use yakutil.Lru.Shard
use yakutil.Lru.Shard.{Node, Shard, init, key_of, expired}
use yakutil.Lru.Order.{IsValid}
use yakutil.Lru.Recency.{get-Looked, live, value}
use yakutil.Lru.Eviction.{time, set-Stored, entry}
use yakutil.Lru.Cache.{Cache, new, shard_for, get, set, total}

total-replicate :
    {K V : Type 0} (n : ℕ) (s : Shard K V) → Shard.len s ≡ 0 → total (replicate n s) ≡ 0
unfolding total
total-replicate zero s h = refl
total-replicate (suc n) s h = omega (arith, total-replicate n s h)

module _ {K V : Type 0} (dec : Discrete K) where
  -- A shard in order, with the cache's settings.
  pub record IsShard (most ttl : ℕ) (s : Shard K V) : Type 0 where
    pub valid : IsValid dec s
    pub same_cap : s.cap ≡ most
    pub same_ttl : s.ttl ≡ ttl

  -- A power of two of them, and the mask that reaches each.
  pub record IsCache (most ttl : ℕ) (c : Cache K V) : Type 0 where
    pub k : ℕ
    pub size : length c.shards ≡ 2 ^ k
    pub masked : c.mask ≡ 2 ^ k - 1
    pub each : (i : ℕ) (s : Shard K V) → get_elem? c.shards i ≡ some s → IsShard most ttl s

  init-IsShard : (most ttl : ℕ) → IsShard most ttl (init {K = K} {V = V} most ttl)
  unfolding init find
  init-IsShard most ttl = record {
    valid = record {
      linked = record { nodes = tt; keys = tt; agree = λ k. refl; count = refl };
      bounded = omega arith;
    };
    same_cap = refl;
    same_ttl = refl;
  }

  -- New with up to 2^62 shards asked for ends with a cache in order that holds nothing; its number of
  -- shards is the least power of two, from 4, that is not below the number asked for.
  pub new-IsCache :
      (num most ttl : ℕ)
      → num ≤ 2 ^ 62
      → (c : Cache K V) × (new num most ttl ≡ some c)
        × IsCache most ttl c
        × (total c.shards ≡ 0)
        × Rounded 2 num (some (length c.shards))
  unfolding new init
  new-IsCache num most ttl small =
      let r =
        double_while-Rounded (λ sz. ltb sz num) num int_rounds 2 (λ s le. refl) small (omega arith)
          (omega arith) in
      let size : length (replicate (2 ^ r.k) (init {K = K} {V = V} most ttl)) ≡ 2 ^ r.k =
        length-replicate (2 ^ r.k) (init most ttl) in
      (
        record { shards = replicate (2 ^ r.k) (init most ttl); mask = 2 ^ r.k - 1 },
        rw r.found refl,
        record {
          k = r.k;
          size = size;
          masked = refl;
          each = λ i s h.
              rw (get_elem?-replicate (2 ^ r.k) i (init most ttl) s h) (init-IsShard most ttl);
        },
        total-replicate (2 ^ r.k) (init most ttl) refl,
        rw (size, ← r.found) r,
      )

  set_settings :
      (s : Shard K V) (now : ℕ) (key : K) (val : V)
      → ((Shard.set dec s now key val).0.cap ≡ s.cap)
        × ((Shard.set dec s now key val).0.ttl ≡ s.ttl)
  unfolding Shard.set Shard.unlink_oldest
  set_settings s now key val = ground arith

  get_settings :
      (s : Shard K V) (now : ℕ) (key : K)
      → ((Shard.get dec s now key).0.cap ≡ s.cap) × ((Shard.get dec s now key).0.ttl ≡ s.ttl)
  unfolding Shard.get
  get_settings s now key = ground arith

  set-IsShard :
      {most ttl : ℕ} (s : Shard K V) (now : ℕ) (k : K) (x : V)
      → IsShard most ttl s
      → IsShard most ttl (Shard.set dec s now k x).0
  set-IsShard s now k x good = record {
    valid = (set-Stored dec s now k x good.valid).valid;
    same_cap = (set_settings s now k x).0 ∙ good.same_cap;
    same_ttl = (set_settings s now k x).1 ∙ good.same_ttl;
  }

  get-IsShard :
      {most ttl : ℕ} (s : Shard K V) (now : ℕ) (k : K)
      → IsShard most ttl s
      → IsShard most ttl (Shard.get dec s now k).0
  get-IsShard s now k good = record {
    valid = (get-Looked dec s now k good.valid).valid;
    same_cap = (get_settings s now k).0 ∙ good.same_cap;
    same_ttl = (get_settings s now k).1 ∙ good.same_ttl;
  }

  -- An entry at the front that has not expired is the live one of its key.
  front_live :
      (s : Shard K V) (now : ℕ) (n : Node K V) (rest : List (Node K V)) (m : ℕ)
      → s.order ≡ take m (n ∷ rest)
      → 0 < m
      → expired s now n ≡ false
      → value (live dec s now n.key) ≡ some n.val
  unfolding find
  front_live s now n rest zero order h young = absurd (omega arith)
  front_live s now n rest (suc m) order h young = ground (arith, order, young)

  entry_young :
      (s : Shard K V) (now later : ℕ) (o : Option (Node K V))
      → (0 < s.ttl → later ≤ now + s.ttl)
      → (ltb 0 s.ttl && ltb s.ttl (later - time dec s now o)) ≡ false
  entry_young s now later none fresh = ground arith
  entry_young s now later (some n) fresh = ground arith

  -- A shard finds what it has just stored, until it expires.
  shard_set-get :
      (s : Shard K V) (k : K) (x : V) (now later : ℕ)
      → IsValid dec s
      → 0 < s.cap
      → (0 < s.ttl → later ≤ now + s.ttl)
      → (Shard.get dec (Shard.set dec s now k x).0 later k).1 ≡ some x
  unfolding expired
  shard_set-get s k x now later v room fresh =
      let stored = set-Stored dec s now k x v in
      (get-Looked dec (Shard.set dec s now k x).0 later k stored.valid).found
      ∙ front_live (Shard.set dec s now k x).0 later (entry dec s now k x)
          (unlink dec key_of k s.order) s.cap stored.order room
          (rw ((set_settings s now k x).1)
            (entry_young s now later (find dec key_of k s.order) fresh))

  -- Replacing a shard by another in order keeps the cache in order.
  replaced-IsCache :
      {most ttl : ℕ} (c : Cache K V) (v : IsCache most ttl c) (i : ℕ) (s : Shard K V)
      → IsShard most ttl s
      → IsCache most ttl (record c { shards = Base.set c.shards i s })
  replaced-IsCache c v i s good = record {
    k = v.k;
    size = length-set c.shards i s ∙ v.size;
    masked = v.masked;
    each = λ j s' h. elim (get_elem?-set_one c.shards i j s s' h) [
      | inl new ↦ rw new good
      | inr old ↦ v.each j s' old
    ];
  }

  module _ (sum64s_map : K → ℕ) {most ttl : ℕ} (c : Cache K V) (v : IsCache most ttl c) where
    -- The hash of a key, masked, is the index of a shard.
    found_shard :
        (k : K) → (s : Shard K V) × (get_elem? c.shards (shard_for dec sum64s_map c k) ≡ some s)
    unfolding shard_for
    found_shard k = get_elem?_within c.shards (bit_and (sum64s_map k) c.mask) (
        rw (v.masked, v.size, bit_and-mask v.k (sum64s_map k))
          (mod-lt (sum64s_map k) (two-pow-pos v.k)))

    -- What Set stores under a key, Get returns until the time to live is over, whatever the clock
    -- says if there is none, provided that the capacity of a shard is not 0; both find the key's
    -- shard, and the cache stays in order.
    pub set-get :
        (k : K) (x : V) (now later : ℕ)
        → 0 < most
        → (0 < ttl → later ≤ now + ttl)
        → (c' : Cache K V) × (victim : Option (Node K V)) × (c'' : Cache K V) × (set dec sum64s_map
              c now k x
            ≡ some (c', victim))
          × IsCache most ttl c'
          × (get dec sum64s_map c' later k ≡ some (c'', some x))
          × IsCache most ttl c''
    unfolding set get shard_for
    set-get k x now later room fresh =
        let (s, e) = found_shard k in
        let good = v.each (shard_for dec sum64s_map c k) s e in
        let s' = (Shard.set dec s now k x).0 in
        let good' = set-IsShard s now k x good in
        let c' = record c { shards = Base.set c.shards (shard_for dec sum64s_map c k) s' } in
        let v' = replaced-IsCache c v (shard_for dec sum64s_map c k) s' good' in
        let looked : (Shard.get dec s' later k).1 ≡ some x =
          shard_set-get s k x now later good.valid (rw good.same_cap room)
            (λ ttl_on. rw good.same_ttl (fresh (rw⁻¹ good.same_ttl ttl_on))) in
        (
          c',
          (Shard.set dec s now k x).1,
          record c' {
            shards = Base.set c'.shards (shard_for dec sum64s_map c k) (Shard.get dec s' later k).0;
          },
          rw (set, e) refl,
          v',
          rw (get, get_elem?-set_self c.shards (shard_for dec sum64s_map c k) s s' e, looked) refl,
          replaced-IsCache c' v' (shard_for dec sum64s_map c k) (Shard.get dec s' later k).0
              (get-IsShard s' later k good'),
        )
