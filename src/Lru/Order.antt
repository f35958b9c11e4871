-- ===== src/Lru/Order.antt =====
-- lru/lru.go: a shard keeps its list and its map in step, and its list is the entries used last.
use yakutil.Base.{◌≤◌, ◌≡◌, sym, ◌∙◌, ap, Option, none, some, ◌∷◌, arith, length}
use yakutil.Base.Keyed.{
  find, Distinct, find-key, find-unlink_ne, find-unlink_self, unlink-Distinct, length-unlink,
}
use yakutil.Lru.Shard.{Node, Shard, key_of, itself, lookup, remove, delete}

abbrev pub key? : {K V : Type 0} → Option (Node K V) → Option K
key? none = none
key? (some n) = some n.key

module _ {K V : Type 0} (dec : Discrete K) where
  -- The map has exactly the keys of the list, each once.
  pub record IsLinked (s : Shard K V) : Type 0 where
    pub nodes : Distinct dec key_of s.order
    pub keys : Distinct dec itself s.items
    pub agree : (k : K) → find dec itself k s.items ≡ key? (find dec key_of k s.order)
    pub count : length s.items ≡ length s.order

  -- Between calls there are no more of them than the capacity.
  pub record IsValid (s : Shard K V) : Type 0 where
    pub linked : IsLinked s
    pub bounded : length s.order ≤ s.cap

  -- The map finds what the list has.
  pub lookup-find :
      {s : Shard K V} (k : K) → IsLinked s → lookup dec s k ≡ find dec key_of k s.order
  unfolding lookup
  lookup-find {s} k v = ground (arith, v.agree k)

  -- Taking a key out of both keeps them in step.
  abbrev pub removed : Shard K V → K → Shard K V
  removed s k = record s { items = delete dec k s.items; order = remove dec k s.order }

  module _ {s : Shard K V} (v : IsLinked s) (k : K) (n : Node K V)
      (hit : find dec key_of k s.order ≡ some n) where
    in_map : find dec itself k s.items ≡ some n.key
    in_map = v.agree k ∙ ap key? hit

    pub removed-IsLinked : IsLinked (removed s k)
    removed-IsLinked = record {
      nodes = unlink-Distinct dec key_of k s.order v.nodes;
      keys = unlink-Distinct dec itself k s.items v.keys;
      agree = agree_after;
      count = omega (
        arith,
        length-unlink dec key_of k s.order n hit,
        length-unlink dec itself k s.items n.key in_map,
        v.count,
      );
    }
      where
        agree_after :
            (j : K)
            → find dec itself j (delete dec k s.items)
              ≡ key? (find dec key_of j (remove dec k s.order))
        agree_after j = elim (dec k j) [
          | yes same ↦ rw (← same) (
              find-unlink_self dec itself k s.items v.keys
              ∙ ap key? (sym (find-unlink_self dec key_of k s.order v.nodes)))
          | no other ↦
              find-unlink_ne dec itself k j s.items other
              ∙ (v.agree j ∙ ap key? (sym (find-unlink_ne dec key_of k j s.order other)))
        ]

    -- Moving a node to the front, as it is or changed, keeps them in step.
    pub moved-IsLinked :
        (m : Node K V) → m.key ≡ k → IsLinked (record s { order = m ∷ remove dec k s.order })
    unfolding find
    moved-IsLinked m same = record {
      nodes = (
        ap (λ j. find dec key_of j (remove dec k s.order)) same
            ∙ find-unlink_self dec key_of k s.order v.nodes,
        unlink-Distinct dec key_of k s.order v.nodes,
      );
      keys = v.keys;
      agree = agree_after;
      count = omega (arith, length-unlink dec key_of k s.order n hit, v.count);
    }
      where
        agree_after :
            (j : K)
            → find dec itself j s.items ≡ key? (find dec key_of j (m ∷ remove dec k s.order))
        agree_after j = elim (dec k j) [
          | yes here ↦
              ground
                (arith, in_map, find-key dec key_of k s.order n hit, find-unlink_ne dec key_of k j)
          | no other ↦ ground (arith, v.agree j, find-unlink_ne dec key_of k j s.order other)
        ]

  -- A new node of a key that is not there.
  pub pushed-IsLinked :
      {s : Shard K V}
      → IsLinked s
      → (m : Node K V) → find dec key_of m.key s.order ≡ none
      → IsLinked (record s { items = m.key ∷ s.items; order = m ∷ s.order })
  unfolding find
  pushed-IsLinked {s} v m miss = record {
    nodes = (miss, v.nodes);
    keys = (v.agree m.key ∙ ap key? miss, v.keys);
    agree = λ j. ground (arith, v.agree j);
    count = omega (arith, v.count);
  }
