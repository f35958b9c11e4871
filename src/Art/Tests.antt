-- ===== src/Art/Tests.antt =====
-- art/tree.go: runs of the tree, and each theorem at an input that meets its hypotheses.
use yakutil.Base.{
  arith, ℕ, ◌≡◌, ◌==◌, refl, Bool, true, false, none, some, List, [], ◌∷◌, if◌then◌else◌, length,
}
use yakutil.Art.Keys.{same, strip, prefix_mismatch}
use yakutil.Art.Tree.{
  Tree, leaf, inner, end, kid, node4, add_child, add_grown, get, fork_leaf, split_leaf, fork_node,
  split_node, put_term, put_kids, put_leaf, put, merge_with_child, shrink_after_delete4, drop_term,
  shrink, del_term, behind, replace_child, after_child, del_kids, del_leaf, del, put_root, del_root,
  tree_get, tree_put, tree_delete,
}
use yakutil.Art.Walk.{
  greater, begins, compare_prefix_range, scan_node_prefix, for_each, seek, scan_prefix,
  tree_for_each, tree_seek, tree_scan_prefix,
}
use yakutil.Art.Paths.{IsNode}
use yakutil.Art.Entries.{entries, filter, walk}
use yakutil.Art.Ordered.{Ascending}
use yakutil.Art.Lookup.{lookup}
use yakutil.Art.Shapes.{Bytes}
use yakutil.Art.Thinning.{IsShapedAt, tree_put-IsShaped}
use yakutil.Art.Maps.{
  IsTree, tree_entries, tree_put-tree_get, tree_delete-tree_get, tree_for_each-tree_entries,
  tree_seek-filter, tree_scan_prefix-filter,
}

abbrev nothing : Tree ℕ
nothing = record { root = none; size = 0 }

nothing-IsTree : IsTree nothing
unfolding IsNode
nothing-IsTree = (tt, refl)

abbrev with_put : Tree ℕ → List ℕ → ℕ → Tree ℕ
with_put t key v = (tree_put t key v).1

with_put-IsTree : (t : Tree ℕ) (key : List ℕ) (v : ℕ) → IsTree t → IsTree (with_put t key v)
with_put-IsTree t key v good = (tree_put-tree_get t key v good).0

-- "car", "cat", "ca" and "dog"
abbrev car : List ℕ
car = 99 ∷ 97 ∷ 114 ∷ []

abbrev cat : List ℕ
cat = 99 ∷ 97 ∷ 116 ∷ []

abbrev ca : List ℕ
ca = 99 ∷ 97 ∷ []

abbrev dog : List ℕ
dog = 100 ∷ 111 ∷ 103 ∷ []

abbrev four : Tree ℕ
four = with_put (with_put (with_put (with_put nothing cat 1) car 2) dog 3) ca 4

four-IsTree : IsTree four
four-IsTree = with_put-IsTree (with_put (with_put (with_put nothing cat 1) car 2) dog 3) ca 4 (
    with_put-IsTree (with_put (with_put nothing cat 1) car 2) dog 3 (
      with_put-IsTree (with_put nothing cat 1) car 2
        (with_put-IsTree nothing cat 1 nothing-IsTree)))

-- The callback keeps the values, the last one first, and stops at 3.
abbrev up_to_three : List ℕ → List ℕ → ℕ → Bool × List ℕ
up_to_three seen key v = (if v == 3 then false else true, v ∷ seen)

program : Unit {0}
unfolding strip prefix_mismatch add_child add_grown get fork_leaf split_leaf fork_node split_node
    put_term put_kids put_leaf put merge_with_child shrink_after_delete4 drop_term shrink del_term
    behind replace_child after_child del_kids del_leaf del put_root del_root tree_get tree_put
    tree_delete greater begins compare_prefix_range scan_node_prefix for_each seek scan_prefix
    tree_for_each tree_seek tree_scan_prefix entries
program = tt

four_holds :
    four.root
    ≡ some (
        inner node4 [] none (
          kid 99
            (inner node4 (97 ∷ []) (some (ca, 4)) (kid 114 (leaf car 2) (kid 116 (leaf cat 1) end)))
            (kid 100 (leaf dog 3) end)))
unfolding program
four_holds = refl

four_get : tree_get four car ≡ some 2
unfolding program
four_get = refl

deletes_merge :
    (tree_delete ((tree_delete four ca).1) car).1.root
    ≡ some (inner node4 [] none (kid 99 (leaf cat 1) (kid 100 (leaf dog 3) end)))
unfolding program
deletes_merge = refl

for_each_stops : tree_for_each up_to_three four [] ≡ (false, 3 ∷ 1 ∷ 2 ∷ 4 ∷ [])
unfolding program
for_each_stops = refl

seek_goes_on : tree_seek up_to_three four (99 ∷ 97 ∷ 115 ∷ []) [] ≡ (false, 3 ∷ 1 ∷ [])
unfolding program
seek_goes_on = refl

scan_finds : tree_scan_prefix up_to_three four (99 ∷ []) [] ≡ (true, 1 ∷ 2 ∷ 4 ∷ [])
unfolding program
scan_finds = refl

tree_put-tree_get_example :
    IsTree ((tree_put four car 5).1)
    × ((tree_put four car 5).0 ≡ tree_get four car)
    × ((j : List ℕ)
        → tree_get ((tree_put four car 5).1) j ≡ (if same car j then some 5 else tree_get four j))
tree_put-tree_get_example = tree_put-tree_get four car 5 four-IsTree

tree_delete-tree_get_example :
    IsTree ((tree_delete four cat).1)
    × ((tree_delete four cat).0 ≡ tree_get four cat)
    × ((j : List ℕ)
        → tree_get ((tree_delete four cat).1) j ≡ (if same cat j then none else tree_get four j))
tree_delete-tree_get_example = tree_delete-tree_get four cat four-IsTree

tree_for_each-tree_entries_example :
    Ascending (tree_entries four)
    × ((key : List ℕ) → tree_get four key ≡ lookup key (tree_entries four))
    × (four.size ≡ length (tree_entries four))
    × ((s : List ℕ) → tree_for_each up_to_three four s ≡ walk up_to_three (tree_entries four) s)
tree_for_each-tree_entries_example = tree_for_each-tree_entries up_to_three four four-IsTree

tree_seek-filter_example :
    tree_seek up_to_three four (99 ∷ 97 ∷ 115 ∷ []) []
    ≡ walk up_to_three (filter (λ key. greater key (99 ∷ 97 ∷ 115 ∷ [])) (tree_entries four)) []
tree_seek-filter_example = tree_seek-filter up_to_three four (99 ∷ 97 ∷ 115 ∷ []) [] four-IsTree

tree_scan_prefix-filter_example :
    tree_scan_prefix up_to_three four (99 ∷ []) []
    ≡ walk up_to_three (filter (λ key. begins key (99 ∷ [])) (tree_entries four)) []
tree_scan_prefix-filter_example = tree_scan_prefix-filter up_to_three four (99 ∷ []) [] four-IsTree

with_put-IsShaped :
    (t : Tree ℕ) (key : List ℕ) (v : ℕ)
    → IsShapedAt (t.root)
    → Bytes key
    → IsShapedAt ((with_put t key v).root)
with_put-IsShaped t key v good small = (tree_put-IsShaped t key v good small).0

four-IsShaped : IsShapedAt (four.root)
four-IsShaped =
    with_put-IsShaped (with_put (with_put (with_put nothing cat 1) car 2) dog 3) ca 4
      (with_put-IsShaped (with_put (with_put nothing cat 1) car 2) dog 3
        (with_put-IsShaped (with_put nothing cat 1) car 2
          (with_put-IsShaped nothing cat 1 tt (omega arith, (omega arith, (omega arith, tt))))
          (omega arith, (omega arith, (omega arith, tt))))
        (omega arith, (omega arith, (omega arith, tt))))
      (omega arith, (omega arith, tt))

tree_put-IsShaped_example :
    IsShapedAt ((tree_put four (255 ∷ []) 5).1.root)
    × IsShapedAt ((tree_delete four (255 ∷ [])).1.root)
tree_put-IsShaped_example = tree_put-IsShaped four (255 ∷ []) 5 four-IsShaped (omega arith, tt)
