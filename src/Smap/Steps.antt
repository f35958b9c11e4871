-- ===== src/Smap/Steps.antt =====
-- smap/smap.go: what one operation on the shard of a key does to the entries of all shards.
use mathlib.Core.Logic.{ite, if_pos, if_neg}
use yakutil.Base
use yakutil.Base.{
  ℕ, zero, suc, ◌+◌, ◌<◌, ◌≤◌, ◌≡◌, ◌≢◌, refl, sym, ◌∙◌, ap, Option, none, some, List, [], ◌∷◌,
  ◌++◌, arith, length, get_elem?, Option-cases, inl, inr, length-set, get_elem?_within,
  get_elem?-set_self, Bool, ◌>>=◌, replicate, length-replicate,
}
use yakutil.Smap.Shards.{
  Shard, lookup, remove, store, create, get_at, set_at, del_at, get_or_set_at,
}
use yakutil.Smap.Entries.{
  entries, Placed, AllAt, Distinct, lookup-entries, lookup-entries-set, Placed-get, set-Placed,
  lookup-store, lookup-remove, store-AllAt, remove-AllAt, store-Distinct, remove-Distinct,
}
use yakutil.Smap.Calls.{update, or_made}

module _ {K V : Type 0} (dec : Discrete K) where
  -- What the shards hold for a key.
  abbrev pub view : List (Shard K V) → K → Option V
  view l k = lookup dec k (entries l)

  module _ (route : K → ℕ) where
    -- Every key has a shard, and stands there, if anywhere.
    pub record IsSharded (l : List (Shard K V)) : Type 0 where
      pub placed : Placed dec route 0 l
      pub reached : (k : K) → route k < length l

    -- One key's entry changed in its shard is the same change of the whole.
    pub record Changed (l : List (Shard K V)) (k : K) (o : Option V) (l' : List (Shard K V))
        : Type 0 where
      pub valid : IsSharded l'
      pub seen : (j : K) → view l' j ≡ update dec (view l) k o j

    view-update :
        (f : K → Option V) (k : K) (o : Option V) → f k ≡ o → (j : K) → f j ≡ update dec f k o j
    unfolding update
    view-update f k o e j = elim (dec k j) [
      | yes p ↦ rw (if_pos _ p, ← p) e
      | no p ↦ rw (if_neg _ p) refl
    ]

    module _ (l : List (Shard K V)) (v : IsSharded l) (k : K) where
      shard_of : (s : Shard K V) × (get_elem? l (route k) ≡ some s)
      shard_of = get_elem?_within l (route k) (v.reached k)

      view_at : (s : Shard K V) → get_elem? l (route k) ≡ some s → view l k ≡ lookup dec k s
      view_at s at = lookup-entries dec route 0 (route k) k l s v.placed (omega arith) at

      changed :
          (s s' : Shard K V) (o : Option V)
          → get_elem? l (route k) ≡ some s
          → (AllAt route (route k) s → AllAt route (route k) s')
          → (Distinct dec s → Distinct dec s')
          → ((j : K) → lookup dec j s' ≡ ite (dec k j) o (lookup dec j s))
          → Changed l k o (Base.set l (route k) s')
      unfolding update
      changed s s' o at keys once look =
          let zero_on : 0 + route k ≡ route k = omega arith in
          let old = Placed-get dec route 0 (route k) l s v.placed at in
          let l' = Base.set l (route k) s' in
          let placed : Placed dec route 0 l' =
            set-Placed dec route 0 (route k) l s' v.placed
              (rw zero_on (keys (rw⁻¹ zero_on (old.0)))) (once old.1) in
          record {
            valid = record {
              placed = placed;
              reached = λ j. rw (length-set l (route k) s') (v.reached j);
            };
            seen = λ j. elim (dec k j) [
              | yes p ↦
                  rw (if_pos _ p, ← p)
                    (lookup-entries dec route 0 (route k) k l' s' placed (omega arith)
                        (get_elem?-set_self l (route k) s s' at)
                      ∙ (look k ∙ if_pos (dec k k) refl _ _))
              | no p ↦
                  rw (if_neg _ p)
                    (lookup-entries-set dec (route k) j l s s' at (look j ∙ if_neg (dec k j) p _ _))
            ];
          }

      pub get_at-view : get_at dec l (route k) k ≡ some (view l k)
      unfolding get_at
      get_at-view = let (s, at) = shard_of in rw (at, view_at s at) refl

      pub set_at-Changed :
          (x : V)
          → (l' : List (Shard K V)) × (set_at dec l (route k) k x ≡ some l')
            × Changed l k (some x) l'
      unfolding set_at
      set_at-Changed x =
          let (s, at) = shard_of in
          (
            Base.set l (route k) (store dec k x s),
            rw at refl,
            changed s (store dec k x s) (some x) at (store-AllAt dec route (route k) k x s refl)
                (store-Distinct dec k x s) (λ j. lookup-store dec k j x s),
          )

      pub del_at-Changed :
          (l' : List (Shard K V)) × (del_at dec l (route k) k ≡ some l') × Changed l k none l'
      unfolding del_at
      del_at-Changed =
          let (s, at) = shard_of in
          (
            Base.set l (route k) (remove dec k s),
            rw at refl,
            changed s (remove dec k s) none at (remove-AllAt dec route (route k) k s)
                (remove-Distinct dec k s) (λ j. lookup-remove dec k j s),
          )

      create-Changed :
          (x : V) (s : Shard K V) (o : Option V)
          → get_elem? l (route k) ≡ some s
          → view l k ≡ o
          → (l' : List (Shard K V)) × (create dec l (route k) k x s o
              ≡ (l', (or_made o x).0, (or_made o x).1))
            × Changed l k (some (or_made o x).0) l'
      unfolding create or_made
      create-Changed x s none at e = (
        Base.set l (route k) (store dec k x s),
        refl,
        changed s (store dec k x s) (some x) at (store-AllAt dec route (route k) k x s refl)
            (store-Distinct dec k x s) (λ j. lookup-store dec k j x s),
      )
      create-Changed x s (some y) at e =
          (l, refl, record { valid = v; seen = view-update (view l) k (some y) e })

      pub get_or_set_at-Changed :
          (x : V)
          → (l' : List (Shard K V)) × (get_or_set_at dec l (route k) k x
              ≡ some (l', (or_made (view l k) x).0, (or_made (view l k) x).1))
            × Changed l k (some (or_made (view l k) x).0) l'
      unfolding get_or_set_at
      get_or_set_at-Changed x =
          let (s, at) = shard_of in
          let (l', made, change) = create-Changed x s (view l k) at refl in
          (l', rw (at, ← view_at s at, made) refl, change)

Placed-replicate :
    {K : Type 0} (V : Type 0) (dec : Discrete K) (route : K → ℕ) (n i : ℕ)
    → Placed {V = V} dec route i (replicate n [])
Placed-replicate V dec route zero i = tt
Placed-replicate V dec route (suc n) i = (tt, tt, Placed-replicate V dec route n (suc i))

-- The first state of either kind.
pub new-IsSharded :
    {K : Type 0} (V : Type 0) (dec : Discrete K) (route : K → ℕ) (n : ℕ)
    → ((k : K) → route k < n)
    → IsSharded {V = V} dec route (replicate n [])
new-IsSharded {K} V dec route n below = record {
  placed = Placed-replicate V dec route n 0;
  reached = λ k. rw (length-replicate {A = Shard K V} n []) (below k);
}

pub view-replicate :
    {K V : Type 0} (dec : Discrete K) (n : ℕ) (k : K) → view {V = V} dec (replicate n []) k ≡ none
unfolding lookup
view-replicate dec zero k = refl
view-replicate dec (suc n) k = view-replicate dec n k
