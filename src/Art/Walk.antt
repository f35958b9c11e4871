-- ===== src/Art/Walk.antt =====
-- art/tree.go: ForEach, Seek and ScanPrefix. The callback is a function of a state, which returns
-- whether to go on and the state after it; a walk returns what the last call did. A node of each kind
-- ranges over its children in the order of their bytes, so the three forms that `seek` and
-- `scanPrefix` have for the kinds are one here.
use yakutil.Base.{
  ℕ, Bool, true, false, Option, none, some, List, [], ◌∷◌, ltb, ◌==◌, if◌then◌else◌, length, drop,
}
use yakutil.Art.Tree.{Node, leaf, inner, Kids, end, kid, Tree}

-- `a > b`, of strings
unfoldable pub greater : List ℕ → List ℕ → Bool
greater [] b = false
greater (x ∷ a) [] = true
greater (x ∷ a) (y ∷ b) =
    let rest = greater a b in if ltb y x then true else if ltb x y then false else rest

-- `strings.HasPrefix`, as the code writes it with a slice
unfoldable pub begins : List ℕ → List ℕ → Bool
begins key [] = true
begins [] (c ∷ prefix) = false
begins (b ∷ key) (c ∷ prefix) = let rest = begins key prefix in if b == c then rest else false

pub data Range : Type 0 where
  before within after : Range

-- `comparePrefixRange`
unfoldable pub compare_prefix_range : List ℕ → List ℕ → Range
compare_prefix_range [] start = within
compare_prefix_range (b ∷ pfx) [] = after
compare_prefix_range (b ∷ pfx) (c ∷ start) =
    let rest = compare_prefix_range pfx start in
    if ltb b c then before else if ltb c b then after else rest

-- The loop over a node's prefix in `scanPrefixInner`: the prefix looked for is at its end, other
-- bytes, or it goes on.
pub data Scan : Type 0 where
  all nothing : Scan
  on : ℕ → List ℕ → Scan

unfoldable pub scan_node_prefix : List ℕ → List ℕ → Scan
scan_node_prefix [] [] = all
scan_node_prefix [] (c ∷ prefix) = on c prefix
scan_node_prefix (b ∷ pfx) [] = all
scan_node_prefix (b ∷ pfx) (c ∷ prefix) =
    let rest = scan_node_prefix pfx prefix in if b == c then rest else nothing

-- `if !… { return false }`, and what follows
abbrev pub and_on : {S : Type 0} → Bool × S → (S → Bool × S) → Bool × S
and_on (true, s) next = next s
and_on (false, s) next = (false, s)

module _ {V : Type 0} {S : Type 0} (fn : S → List ℕ → V → Bool × S) where
  abbrev pub visit : Option (List ℕ × V) → S → Bool × S
  visit none s = (true, s)
  visit (some (k, v)) s = fn s k v

  -- `forEach`, and `rangeChildren` with it
  unfoldable mutual
    pub for_each : Node V → S → Bool × S
    for_each (leaf k v) s = fn s k v
    for_each (inner kind pfx term kids) s = and_on (visit term s) (λ s'. for_each_child kids s')

    pub for_each_child : Kids V → S → Bool × S
    for_each_child end s = (true, s)
    for_each_child (kid b n l) s = and_on (for_each n s) (λ s'. for_each_child l s')

  abbrev pub visit_greater : Option (List ℕ × V) → List ℕ → S → Bool × S
  visit_greater none start s = (true, s)
  visit_greater (some (k, v)) start s = if greater k start then fn s k v else (true, s)

  -- `seek`, with the rest of `start` from the node on
  unfoldable mutual
    pub seek : Node V → List ℕ → List ℕ → S → Bool × S
    seek (leaf k v) start rest s = if greater k start then fn s k v else (true, s)
    seek (inner kind pfx term kids) start rest s = elim (compare_prefix_range pfx rest) [
      | after ↦ and_on (visit term s) (λ s'. for_each_child kids s')
      | before ↦ (true, s)
      | within ↦ elim (drop (length pfx) rest) [
        | [] ↦ and_on (visit_greater term start s) (λ s'. for_each_child kids s')
        | c ∷ r ↦ and_on (visit_greater term start s) (λ s'. seek_children kids c start r s')
      ]
    ]

    pub seek_children : Kids V → ℕ → List ℕ → List ℕ → S → Bool × S
    seek_children end c start r s = (true, s)
    seek_children (kid b n l) c start r s =
        let later : S → Bool × S = λ s'. seek_children l c start r s' in
        if ltb b c
        then later s
        else if b == c
        then and_on (seek n start r s) later
        else and_on (for_each n s) later

  -- `scanPrefix`
  unfoldable mutual
    pub scan_prefix : Node V → List ℕ → List ℕ → S → Bool × S
    scan_prefix (leaf k v) prefix rest s = if begins k prefix then fn s k v else (true, s)
    scan_prefix (inner kind pfx term kids) prefix rest s = elim (scan_node_prefix pfx rest) [
      | all ↦ and_on (visit term s) (λ s'. for_each_child kids s')
      | nothing ↦ (true, s)
      | on c r ↦ scan_child kids c prefix r s
    ]

    -- the child for the next byte, or nothing
    pub scan_child : Kids V → ℕ → List ℕ → List ℕ → S → Bool × S
    scan_child end c prefix r s = (true, s)
    scan_child (kid b n l) c prefix r s =
        let later = scan_child l c prefix r s in if b == c then scan_prefix n prefix r s else later

  -- `ForEach`, `Seek` and `ScanPrefix`
  unfoldable pub tree_for_each : Tree V → S → Bool × S
  tree_for_each t s = elim (t.root) [ none ↦ (true, s) | some n ↦ for_each n s ]

  unfoldable pub tree_seek : Tree V → List ℕ → S → Bool × S
  tree_seek t start s = elim (t.root) [ none ↦ (true, s) | some n ↦ seek n start start s ]

  unfoldable pub tree_scan_prefix : Tree V → List ℕ → S → Bool × S
  tree_scan_prefix t prefix s = elim (t.root) [
    | none ↦ (true, s)
    | some n ↦ scan_prefix n prefix prefix s
  ]
