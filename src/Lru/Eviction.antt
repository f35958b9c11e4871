-- ===== src/Lru/Eviction.antt =====
-- lru/lru.go: what Set does to the order of use, and whom it evicts.
use mathlib.Core.Path.{subst}
use native.Mathlib.Decide.{dec_lt}
use yakutil.Base.{
  ℕ, zero, suc, ◌≤◌, ◌<◌, ◌≡◌, refl, sym, ◌∙◌, ap, inl, inr, Option, none, some, List, [], ◌∷◌,
  arith, ltb, lt→ltb, le→ltb, if◌then◌else◌, Option-cases, length, take, take_of_length-le,
  length-take, get_elem?,
}
use yakutil.Base.Keyed.{
  find, unlink, find-key, unlink_absent, length-unlink, find-last, unlink-last, last-some,
  last-get_elem?,
}
use yakutil.Lru.Shard.{
  Node, Shard, push_front, key_of, remove, move_to_front, unlink_oldest, stamp, set,
}
use yakutil.Lru.Order.{
  IsLinked, IsValid, lookup-find, removed, removed-IsLinked, moved-IsLinked, pushed-IsLinked,
}

-- beyond the end there is nothing
pub get_elem?_beyond {ℓ} : {A : Type ℓ} (l : List A) (i : ℕ) → length l ≤ i → get_elem? l i ≡ none
get_elem?_beyond [] i h = refl
get_elem?_beyond (x ∷ l) zero h = absurd (omega arith)
get_elem?_beyond (x ∷ l) (suc i) h = get_elem?_beyond l i (omega arith)

module _ {K V : Type 0} (dec : Discrete K) where
  -- A list of linked nodes loses the one at its end.
  pub unlink_oldest_lem :
      (s : Shard K V) (n : ℕ)
      → IsLinked dec s
      → length s.order ≡ suc n
      → IsLinked dec (unlink_oldest dec s).0
        × ((unlink_oldest dec s).0.order ≡ take n s.order)
        × ((unlink_oldest dec s).1 ≡ get_elem? s.order n)
        × ((unlink_oldest dec s).0.cap ≡ s.cap)
  unfolding unlink_oldest unlink
  unlink_oldest_lem s n v e =
      let (a, h) = last-some dec key_of n s.order e in
      let gone : unlink_oldest dec s ≡ (removed dec s a.key, some a) = rw (unlink_oldest, h) refl in
      let hit = find-last dec key_of s.order a v.nodes h in
      subst
        (λ r.
          IsLinked dec r.0
          × ((r.0).order ≡ take n s.order)
          × (r.1 ≡ get_elem? s.order n)
          × ((r.0).cap ≡ s.cap))
        (sym gone)
        (
          removed-IsLinked dec v a.key a hit,
          unlink-last dec key_of n s.order a v.nodes e h,
          sym h ∙ last-get_elem? dec key_of n s.order e,
          refl,
        )

  -- The times of a new entry and of one that is set again.
  abbrev pub time : Shard K V → ℕ → Option (Node K V) → ℕ
  time s now none = stamp s now
  time s now (some n) = if ltb 0 s.ttl then now else n.created

  -- the entry that Set makes
  abbrev pub entry : Shard K V → ℕ → K → V → Node K V
  entry s now k x = record { key = k; val = x; created = time s now (find dec key_of k s.order) }

  pub record Stored (s : Shard K V) (now : ℕ) (k : K) (x : V)
      (result : Shard K V × Option (Node K V)) : Type 0 where
    pub valid : IsValid dec result.0
    pub order : (result.0).order ≡ take s.cap (entry s now k x ∷ remove dec k s.order)
    pub victim : result.1 ≡ get_elem? (entry s now k x ∷ remove dec k s.order) s.cap

  module _ (s : Shard K V) (now : ℕ) (k : K) (x : V) (v : IsValid dec s) where
    set_hit :
        (n : Node K V)
        → find dec key_of k s.order ≡ some n
        → set dec s now k x ≡ (record s { order = entry s now k x ∷ remove dec k s.order }, none)
    unfolding set move_to_front push_front
    set_hit n hit =
        rw (set, lookup-find dec k v.linked, hit, find-key dec key_of k s.order n hit, entry, time)
          refl

    abbrev grown : Shard K V
    grown = record s { items = k ∷ s.items; order = entry s now k x ∷ s.order }

    set_room :
        find dec key_of k s.order ≡ none
        → length s.order < s.cap
        → set dec s now k x ≡ (grown, none)
    unfolding set push_front
    set_room miss room =
        rw
          (
            set,
            lookup-find dec k v.linked,
            miss,
            le→ltb s.cap (length (k ∷ s.items)) (omega (arith, v.linked.count)),
          )
          refl

    set_full :
        find dec key_of k s.order ≡ none
        → length s.order ≡ s.cap
        → set dec s now k x ≡ unlink_oldest dec grown
    unfolding set push_front
    set_full miss full =
        rw
          (
            set,
            lookup-find dec k v.linked,
            miss,
            lt→ltb s.cap (length (k ∷ s.items)) (omega (arith, v.linked.count)),
          )
          refl

    abbrev after : List (Node K V)
    after = entry s now k x ∷ remove dec k s.order

    -- A result that evicts nobody.
    kept :
        {s' : Shard K V}
        → set dec s now k x ≡ (s', none)
        → IsLinked dec s'
        → s'.cap ≡ s.cap
        → s'.order ≡ after
        → length after ≤ s.cap
        → Stored s now k x (set dec s now k x)
    kept {s'} result v' same order fits = subst (Stored s now k x) (sym result) (record {
      valid = record { linked = v'; bounded = rw (order, same) fits };
      order = order ∙ sym (take_of_length-le s.cap after fits);
      victim = sym (get_elem?_beyond after s.cap fits);
    })

    -- The result that evicts the entry used longest ago.
    evicting :
        find dec key_of k s.order ≡ none
        → length s.order ≡ s.cap
        → Stored s now k x (set dec s now k x)
    evicting miss full =
        let same = unlink_absent dec key_of k s.order miss in
        let (linked, order, victim, cap) =
          unlink_oldest_lem grown s.cap (pushed-IsLinked dec v.linked (entry s now k x) miss)
            (omega arith) in
        subst (Stored s now k x) (sym (set_full miss full)) (record {
          valid = record {
            linked = linked;
            bounded = rw (order, cap, length-take s.cap grown.order) (omega arith);
          };
          order = order ∙ ap (λ o. take s.cap (entry s now k x ∷ o)) (sym same);
          victim = victim ∙ ap (λ o. get_elem? (entry s now k x ∷ o) s.cap) (sym same);
        })

  -- On a valid shard Set makes the new entry of the key the one used last, drops the key's entry
  -- before, and keeps of the rest as many as the capacity allows. The entry evicted is the one
  -- beyond the capacity, if there is one. The shard stays valid.
  pub set-Stored :
      (s : Shard K V) (now : ℕ) (k : K) (x : V)
      → IsValid dec s
      → Stored s now k x (set dec s now k x)
  set-Stored s now k x v = elim (Option-cases (find dec key_of k s.order)) [
    | inr (n, hit) ↦
        kept s now k x v (set_hit s now k x v n hit)
          (moved-IsLinked dec v.linked k n hit (entry s now k x) refl) refl refl
          (omega (arith, v.bounded, length-unlink dec key_of k s.order n hit))
    | inl miss ↦
        let v' = pushed-IsLinked dec v.linked (entry s now k x) miss in
        let same = unlink_absent dec key_of k s.order miss in
        elim (dec_lt (length s.order) s.cap) [
          | yes room ↦
              kept s now k x v (set_room s now k x v miss room) v' refl
                (ap (λ o. entry s now k x ∷ o) (sym same)) (rw same (omega arith))
          | no full ↦ evicting s now k x v miss (omega (arith, v.bounded))
        ]
  ]
