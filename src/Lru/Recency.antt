-- ===== src/Lru/Recency.antt =====
-- lru/lru.go: what the calls of a shard do to the order of use.
use mathlib.Core.Path.{subst}
use yakutil.Base.{
  ℕ, ◌+◌, ◌≤◌, ◌≡◌, refl, sym, inl, inr, true, false, Option, none, some, List, ◌∷◌, arith,
  if◌then◌else◌, Bool-cases, Option-cases, length,
}
use yakutil.Base.Keyed.{find, find-key, unlink_absent, length-unlink}
use yakutil.Lru.Shard.{Node, Shard, push_front, expired, key_of, remove, move_to_front, get}
use yakutil.Lru.Order.{IsValid, lookup-find, removed, removed-IsLinked, moved-IsLinked}

module _ {K V : Type 0} where
  abbrev pub in_front : Option (Node K V) → List (Node K V) → List (Node K V)
  in_front none order = order
  in_front (some n) order = n ∷ order

  abbrev pub value : Option (Node K V) → Option V
  value none = none
  value (some n) = some n.val

module _ {K V : Type 0} (dec : Discrete K) where
  -- The entry of a key, unless it has expired.
  abbrev pub live : Shard K V → ℕ → K → Option (Node K V)
  live s now k = elim (find dec key_of k s.order) [
    | none ↦ none
    | some n ↦ if expired s now n then none else some n
  ]

  pub record Looked (s : Shard K V) (now : ℕ) (k : K) (result : Shard K V × Option V) : Type 0 where
    pub valid : IsValid dec result.0
    pub found : result.1 ≡ value (live s now k)
    pub order : (result.0).order ≡ in_front (live s now k) (remove dec k s.order)

  -- The three ways of a look-up.
  module _ (s : Shard K V) (now : ℕ) (k : K) (v : IsValid dec s) where
    get_miss : find dec key_of k s.order ≡ none → get dec s now k ≡ (s, none)
    unfolding get
    get_miss miss = rw (get, lookup-find dec k v.linked, miss) refl

    module _ (n : Node K V) (hit : find dec key_of k s.order ≡ some n) where
      get_old : expired s now n ≡ true → get dec s now k ≡ (removed dec s k, none)
      unfolding get
      get_old old = rw (get, lookup-find dec k v.linked, hit, old) refl

      get_young :
          expired s now n ≡ false
          → get dec s now k ≡ (record s { order = n ∷ remove dec k s.order }, some n.val)
      unfolding get move_to_front push_front
      get_young young =
          rw (get, lookup-find dec k v.linked, hit, young, find-key dec key_of k s.order n hit) refl

      fewer : length (remove dec k s.order) + 1 ≤ s.cap
      fewer = omega (arith, length-unlink dec key_of k s.order n hit, v.bounded)

  -- On a valid shard Get returns the value of the key's entry, unless it has expired, and moves that
  -- entry to the front of the order of use; an expired entry is taken out, and no other entry is
  -- changed. The shard stays valid.
  pub get-Looked :
      (s : Shard K V) (now : ℕ) (k : K) → IsValid dec s → Looked s now k (get dec s now k)
  get-Looked s now k v = elim (Option-cases (find dec key_of k s.order)) [
    | inl miss ↦ subst (Looked s now k) (sym (get_miss s now k v miss)) (record {
      valid = v;
      found = rw (live, miss) refl;
      order = rw (live, miss, unlink_absent dec key_of k s.order miss) refl;
    })
    | inr (n, hit) ↦ elim (Bool-cases (expired s now n)) [
      | inl old ↦ subst (Looked s now k) (sym (get_old s now k v n hit old)) (record {
        valid = record {
          linked = removed-IsLinked dec v.linked k n hit;
          bounded = omega (arith, fewer s now k v n hit);
        };
        found = rw (live, hit, old) refl;
        order = rw (live, hit, old) refl;
      })
      | inr young ↦ subst (Looked s now k) (sym (get_young s now k v n hit young)) (record {
        valid = record {
          linked = moved-IsLinked dec v.linked k n hit n (find-key dec key_of k s.order n hit);
          bounded = omega (arith, fewer s now k v n hit);
        };
        found = rw (live, hit, young) refl;
        order = rw (live, hit, young) refl;
      })
    ]
  ]
