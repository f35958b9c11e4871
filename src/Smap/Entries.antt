-- ===== src/Smap/Entries.antt =====
-- smap/smap.go: the keys and values of all shards as one list, in which a key is found just where
-- its shard has it.
use mathlib.Core.Logic.{ite}
use yakutil.Base
use yakutil.Base.{
  ℕ, zero, suc, ◌+◌, ◌<◌, ◌≤◌, ◌≡◌, ◌≢◌, refl, sym, ◌∙◌, ap, Option, none, some, List, [], ◌∷◌,
  ◌++◌, arith, length, get_elem?, Option-cases, inl, inr, length-append,
}
use yakutil.Smap.Shards.{Shard, lookup, remove, store, total}

-- The first of two that is there.
abbrev pub or_else : {V : Type 0} → Option V → Option V → Option V
or_else none o = o
or_else (some v) o = some v

module _ {K V : Type 0} where
  abbrev pub entries : List (Shard K V) → List (K × V)
  entries [] = []
  entries (s ∷ l) = s ++ entries l

  pub total-entries : (l : List (Shard K V)) → total l ≡ length (entries l)
  unfolding total
  total-entries [] = refl
  total-entries (s ∷ l) = omega (arith, total-entries l, length-append s (entries l))

  -- All keys have the shard at an index for theirs.
  abbrev pub AllAt : (K → ℕ) → ℕ → Shard K V → Type 0
  AllAt route n [] = Unit {0}
  AllAt route n ((k, v) ∷ s) = (route k ≡ n) × AllAt route n s

module _ {K V : Type 0} (dec : Discrete K) where
  pub lookup-remove :
      (k j : K) (s : Shard K V)
      → lookup dec j (remove dec k s) ≡ ite (dec k j) none (lookup dec j s)
  unfolding lookup remove
  lookup-remove k j [] = ground arith
  lookup-remove k j ((i, v) ∷ s) = ground (arith, lookup-remove k j s)

  pub lookup-store :
      (k j : K) (v : V) (s : Shard K V)
      → lookup dec j (store dec k v s) ≡ ite (dec k j) (some v) (lookup dec j s)
  unfolding lookup store
  lookup-store k j v s = ground (arith, lookup-remove k j s)

  lookup-append :
      (k : K) (a b : List (K × V))
      → lookup dec k (a ++ b) ≡ or_else (lookup dec k a) (lookup dec k b)
  unfolding lookup
  lookup-append k [] b = refl
  lookup-append k ((j, v) ∷ a) b = ground (arith, lookup-append k a b)

  -- Each key once.
  abbrev pub Distinct : List (K × V) → Type 0
  Distinct [] = Unit {0}
  Distinct ((k, v) ∷ l) = (lookup dec k l ≡ none) × Distinct l

  pub remove-Distinct : (k : K) (s : Shard K V) → Distinct s → Distinct (remove dec k s)
  unfolding remove
  remove-Distinct k [] d = tt
  remove-Distinct k ((j, v) ∷ s) d = ground (arith, remove-Distinct k s, lookup-remove k j s)

  pub store-Distinct : (k : K) (v : V) (s : Shard K V) → Distinct s → Distinct (store dec k v s)
  unfolding store
  store-Distinct k v s d = ground (arith, remove-Distinct k s, lookup-remove k k s)

  module _ (route : K → ℕ) where
    pub remove-AllAt :
        (n : ℕ) (k : K) (s : Shard K V) → AllAt route n s → AllAt route n (remove dec k s)
    unfolding remove
    remove-AllAt n k [] h = tt
    remove-AllAt n k ((j, v) ∷ s) h = ground (arith, remove-AllAt n k s)

    pub store-AllAt :
        (n : ℕ) (k : K) (v : V) (s : Shard K V)
        → route k ≡ n
        → AllAt route n s
        → AllAt route n (store dec k v s)
    unfolding store
    store-AllAt n k v s e h = (e, remove-AllAt n k s h)

    lookup_elsewhere :
        (n : ℕ) (k : K) (s : Shard K V) → AllAt route n s → route k ≢ n → lookup dec k s ≡ none
    unfolding lookup
    lookup_elsewhere n k [] h ne = refl
    lookup_elsewhere n k ((j, v) ∷ s) h ne =
        ground (arith, lookup_elsewhere n k s, ap route {x = j} {y = k})

    -- From index `n` on, each shard holds keys of its own, each once.
    abbrev pub Placed : ℕ → List (Shard K V) → Type 0
    Placed n [] = Unit {0}
    Placed n (s ∷ l) = AllAt route n s × Distinct s × Placed (suc n) l

    lookup_past :
        (n : ℕ) (k : K) (l : List (Shard K V))
        → Placed n l
        → route k < n
        → lookup dec k (entries l) ≡ none
    unfolding lookup
    lookup_past n k [] p lt = refl
    lookup_past n k (s ∷ l) p lt =
        rw
          (
            lookup-append k s (entries l),
            lookup_elsewhere n k s p.0 (λ e. absurd (omega arith)),
            lookup_past (suc n) k l p.2 (omega arith),
          )
          refl

    or_else-none : (o : Option V) → or_else o none ≡ o
    or_else-none none = refl
    or_else-none (some v) = refl

    pub lookup-entries :
        (n i : ℕ) (k : K) (l : List (Shard K V)) (s : Shard K V)
        → Placed n l
        → route k ≡ n + i
        → get_elem? l i ≡ some s
        → lookup dec k (entries l) ≡ lookup dec k s
    lookup-entries n i k [] s p e at = cc
    lookup-entries n zero k (t ∷ l) s p e at =
        rw
          (
            lookup-append k t (entries l),
            lookup_past (suc n) k l p.2 (omega arith),
            or_else-none (lookup dec k t),
          )
          (cc)
    lookup-entries n (suc i) k (t ∷ l) s p e at =
        rw (lookup-append k t (entries l), lookup_elsewhere n k t p.0 (λ q. absurd (omega arith)))
          (lookup-entries (suc n) i k l s p.2 (omega arith) at)

    pub Placed-get :
        (n i : ℕ) (l : List (Shard K V)) (s : Shard K V)
        → Placed n l
        → get_elem? l i ≡ some s
        → AllAt route (n + i) s × Distinct s
    Placed-get n i [] s p at = cc
    Placed-get n zero (t ∷ l) s p at = let e : n + 0 ≡ n = omega arith in rw e (ground arith)
    Placed-get n (suc i) (t ∷ l) s p at =
        let e : n + suc i ≡ suc n + i = omega arith in rw e (Placed-get (suc n) i l s p.2 at)

    pub set-Placed :
        (n i : ℕ) (l : List (Shard K V)) (s : Shard K V)
        → Placed n l
        → AllAt route (n + i) s
        → Distinct s
        → Placed n (Base.set l i s)
    set-Placed n i [] s p a d = tt
    set-Placed n zero (t ∷ l) s p a d = let e : n + 0 ≡ n = omega arith in (rw⁻¹ e a, d, p.2)
    set-Placed n (suc i) (t ∷ l) s p a d =
        let e : n + suc i ≡ suc n + i = omega arith in
        (p.0, p.1, set-Placed (suc n) i l s p.2 (rw⁻¹ e a) d)

    Distinct-append :
        (n : ℕ) (s : Shard K V) (l : List (K × V))
        → AllAt route n s
        → Distinct s
        → Distinct l
        → ((k : K) → route k ≡ n → lookup dec k l ≡ none)
        → Distinct (s ++ l)
    Distinct-append n [] l a d d' h = d'
    Distinct-append n ((k, v) ∷ s) l a d d' h =
        (rw (lookup-append k s l, d.0, h k a.0) refl, Distinct-append n s l a.1 d.1 d' h)

    pub Placed-Distinct : (n : ℕ) (l : List (Shard K V)) → Placed n l → Distinct (entries l)
    Placed-Distinct n [] p = tt
    Placed-Distinct n (s ∷ l) p =
        Distinct-append n s (entries l) p.0 p.1 (Placed-Distinct (suc n) l p.2)
          (λ k e. lookup_past (suc n) k l p.2 (omega arith))

  -- A key of another shard, or one that the new shard looks up alike, is found as before.
  pub lookup-entries-set :
      (i : ℕ) (k : K) (l : List (Shard K V)) (s s' : Shard K V)
      → get_elem? l i ≡ some s
      → lookup dec k s' ≡ lookup dec k s
      → lookup dec k (entries (Base.set l i s')) ≡ lookup dec k (entries l)
  lookup-entries-set i k [] s s' at e = refl
  lookup-entries-set zero k (t ∷ l) s s' at e =
      rw (lookup-append k s' (entries l), lookup-append k t (entries l), e) (cc)
  lookup-entries-set (suc i) k (t ∷ l) s s' at e =
      rw
        (
          lookup-append k t (entries (Base.set l i s')),
          lookup-append k t (entries l),
          lookup-entries-set i k l s s' at e,
        )
        refl
