-- ===== src/Art/Maps.antt =====
-- art/tree.go: the tree as an ordered map. Put, Delete, ForEach, Seek and ScanPrefix of a tree in order,
-- against what Get reads and the entries in order.
use yakutil.Base.{
  ℕ, suc, ◌+◌, ◌-◌, ◌≡◌, refl, sym, ◌∙◌, ap, Bool, true, Option, none, some, List, [], arith,
  if◌then◌else◌, length,
}
use yakutil.Art.Keys.{same}
use yakutil.Art.Tree.{
  Node, Tree, get, put, del, put_root, del_root, tree_get, tree_put, tree_delete, is_some,
}
use yakutil.Art.Paths.{IsNode}
use yakutil.Art.Shrinks.{get_at, IsNodeAt}
use yakutil.Art.Insertions.{put_all}
use yakutil.Art.Removals.{del_all}
use yakutil.Art.Walk.{
  for_each, seek, scan_prefix, tree_for_each, tree_seek, tree_scan_prefix, greater, begins,
}
use yakutil.Art.Entries.{entries, filter, walk, for_each-walk}
use yakutil.Art.Seeks.{seek-walk}
use yakutil.Art.Scans.{scan_prefix-walk}
use yakutil.Art.Ordered.{Ascending, entries-Ascending}
use yakutil.Art.Lookup.{lookup, get-lookup}
use yakutil.Art.Counts.{hit, put-Grown, count_entries}
use yakutil.Art.Losses.{del-Lost, count_at}

module _ {V : Type 0} where
  -- The entries of a tree.
  abbrev pub root_entries : Option (Node V) → List (List ℕ × V)
  root_entries none = []
  root_entries (some n) = entries n

  abbrev pub tree_entries : Tree V → List (List ℕ × V)
  tree_entries t = root_entries (t.root)

  -- A tree in order, with the number of its entries.
  abbrev pub IsTree : Tree V → Type 0
  IsTree t = IsNodeAt [] (t.root) × (t.size ≡ length (tree_entries t))

  tree_get-get_at : (t : Tree V) (key : List ℕ) → tree_get t key ≡ get_at (t.root) key key
  unfolding tree_get
  tree_get-get_at t key = go (t.root)
    where
      go :
          (o : Option (Node V))
          → elim o as (λ x. Option V) [ none ↦ none | some n ↦ get n key key ] ≡ get_at o key key
      go none = refl
      go (some n) = refl

  -- Put at the root.
  put_root-gets :
      (o : Option (Node V)) (key : List ℕ) (v : V)
      → IsNodeAt [] o
      → IsNode [] ((put_root o key v).1)
        × ((put_root o key v).0 ≡ get_at o key key)
        × ((j : List ℕ)
            → get ((put_root o key v).1) j j ≡ (if same key j then some v else get_at o j j))
  unfolding put_root get IsNode
  put_root-gets none key v good = ((key, refl), refl, λ j. refl)
  put_root-gets (some n) key v good =
      let p = put_all n [] key key v refl good in (p.valid, p.old, λ j. p.gets j j refl)

  put_root-size :
      (o : Option (Node V)) (key : List ℕ) (v : V)
      → (if is_some ((put_root o key v).0)
          then length (root_entries o)
          else length (root_entries o) + 1)
        ≡ count_entries ((put_root o key v).1)
  unfolding put_root entries
  put_root-size none key v = refl
  put_root-size (some n) key v = sized ((put n key v key).0) (put-Grown n key v key)
    where
      sized :
          (old : Option V)
          → count_entries ((put n key v key).1) + hit old ≡ suc (count_entries n)
          → (if is_some old then count_entries n else count_entries n + 1)
            ≡ count_entries ((put n key v key).1)
      sized none h = omega arith
      sized (some v') h = omega arith

  -- In a tree in order, `Put` leaves a tree in order, with the size kept up, and returns the value
  -- that Get read for the key. Get then reads the new value for the key, and for each other key what
  -- it read before.
  pub tree_put-tree_get :
      (t : Tree V) (key : List ℕ) (v : V)
      → IsTree t
      → IsTree ((tree_put t key v).1)
        × ((tree_put t key v).0 ≡ tree_get t key)
        × ((j : List ℕ)
            → tree_get ((tree_put t key v).1) j ≡ (if same key j then some v else tree_get t j))
  unfolding tree_put
  tree_put-tree_get t key v (good, size) =
      let (valid, old, gets) = put_root-gets (t.root) key v good in
      let after : Tree V = (tree_put t key v).1 in
      (
        (valid, rw size (put_root-size (t.root) key v)),
        old ∙ sym (tree_get-get_at t key),
        λ j.
            tree_get-get_at after j
            ∙ (gets j ∙ ap (λ o. if same key j then some v else o) (sym (tree_get-get_at t j))),
      )

  del_root-gets :
      (o : Option (Node V)) (key : List ℕ)
      → IsNodeAt [] o
      → IsNodeAt [] ((del_root o key).1)
        × ((del_root o key).0 ≡ get_at o key key)
        × ((j : List ℕ)
            → get_at ((del_root o key).1) j j ≡ (if same key j then none else get_at o j j))
  unfolding del_root
  del_root-gets none key good = (tt, refl, λ j. ground arith)
  del_root-gets (some n) key good =
      let d = del_all n [] key key refl good in (d.valid, d.old, λ j. d.gets j j refl)

  count-root_entries : (o : Option (Node V)) → count_at o ≡ length (root_entries o)
  count-root_entries none = refl
  count-root_entries (some n) = refl

  del_root-size :
      (o : Option (Node V)) (key : List ℕ)
      → (if is_some ((del_root o key).0)
          then length (root_entries o) - 1
          else length (root_entries o))
        ≡ length (root_entries ((del_root o key).1))
  unfolding del_root
  del_root-size none key = refl
  del_root-size (some n) key = sized ((del n key key).0) (del-Lost n key key)
    where
      left : count_at ((del n key key).1) ≡ length (root_entries ((del n key key).1))
      left = count-root_entries ((del n key key).1)

      sized :
          (old : Option V)
          → count_at ((del n key key).1) + hit old ≡ count_entries n
          → (if is_some old then count_entries n - 1 else count_entries n)
            ≡ length (root_entries ((del n key key).1))
      sized none h = omega (arith, left)
      sized (some v') h = omega (arith, left)

  -- In a tree in order, `Delete` leaves a tree in order, with the size kept up, and returns the value
  -- that Get read for the key. Get then reads nothing for the key, and for each other key what it
  -- read before.
  pub tree_delete-tree_get :
      (t : Tree V) (key : List ℕ)
      → IsTree t
      → IsTree ((tree_delete t key).1)
        × ((tree_delete t key).0 ≡ tree_get t key)
        × ((j : List ℕ)
            → tree_get ((tree_delete t key).1) j ≡ (if same key j then none else tree_get t j))
  unfolding tree_delete
  tree_delete-tree_get t key (good, size) =
      let (valid, old, gets) = del_root-gets (t.root) key good in
      let after : Tree V = (tree_delete t key).1 in
      (
        (valid, rw size (del_root-size (t.root) key)),
        old ∙ sym (tree_get-get_at t key),
        λ j.
            tree_get-get_at after j
            ∙ (gets j ∙ ap (λ o. if same key j then none else o) (sym (tree_get-get_at t j))),
      )

  root-lookup :
      (o : Option (Node V)) (key : List ℕ)
      → IsNodeAt [] o
      → get_at o key key ≡ lookup key (root_entries o)
  root-lookup none key good = refl
  root-lookup (some n) key good = get-lookup n [] key key refl good

  root-Ascending : (o : Option (Node V)) → IsNodeAt [] o → Ascending (root_entries o)
  root-Ascending none good = tt
  root-Ascending (some n) good = entries-Ascending n [] good

  module _ {S : Type 0} (fn : S → List ℕ → V → Bool × S) where
    root_for_each-walk : (t : Tree V) (s : S) → tree_for_each fn t s ≡ walk fn (tree_entries t) s
    unfolding tree_for_each
    root_for_each-walk t s = go (t.root)
      where
        go :
            (o : Option (Node V))
            → elim o as (λ x. Bool × S) [ none ↦ (true, s) | some n ↦ for_each fn n s ]
              ≡ walk fn (root_entries o) s
        go none = refl
        go (some n) = for_each-walk fn n s

    -- In a tree in order, `ForEach` calls back on one entry after another of a list whose keys ascend
    -- and in which each key has the value that Get reads, nothing else being in it; the size is its
    -- length.
    pub tree_for_each-tree_entries :
        (t : Tree V)
        → IsTree t
        → Ascending (tree_entries t)
          × ((key : List ℕ) → tree_get t key ≡ lookup key (tree_entries t))
          × (t.size ≡ length (tree_entries t))
          × ((s : S) → tree_for_each fn t s ≡ walk fn (tree_entries t) s)
    tree_for_each-tree_entries t (good, size) = (
      root-Ascending (t.root) good,
      (λ key. tree_get-get_at t key ∙ root-lookup (t.root) key good),
      size,
      root_for_each-walk t,
    )

    -- In a tree in order, `Seek` calls back on one entry after another, in order, of those with a key
    -- above `start`.
    pub tree_seek-filter :
        (t : Tree V) (start : List ℕ) (s : S)
        → IsTree t
        → tree_seek fn t start s ≡ walk fn (filter (λ key. greater key start) (tree_entries t)) s
    unfolding tree_seek
    tree_seek-filter t start s (good, size) = go (t.root) good
      where
        go :
            (o : Option (Node V))
            → IsNodeAt [] o
            → elim o as (λ x. Bool × S) [ none ↦ (true, s) | some n ↦ seek fn n start start s ]
              ≡ walk fn (filter (λ key. greater key start) (root_entries o)) s
        go none h = refl
        go (some n) h = seek-walk fn n [] start start refl h s

    -- In a tree in order, `ScanPrefix` calls back on one entry after another, in order, of those with
    -- a key that begins with `prefix`.
    pub tree_scan_prefix-filter :
        (t : Tree V) (prefix : List ℕ) (s : S)
        → IsTree t
        → tree_scan_prefix fn t prefix s
          ≡ walk fn (filter (λ key. begins key prefix) (tree_entries t)) s
    unfolding tree_scan_prefix
    tree_scan_prefix-filter t prefix s (good, size) = go (t.root) good
      where
        go :
            (o : Option (Node V))
            → IsNodeAt [] o
            → elim o as (λ x. Bool × S) [
              | none ↦ (true, s)
              | some n ↦ scan_prefix fn n prefix prefix s
            ]
              ≡ walk fn (filter (λ key. begins key prefix) (root_entries o)) s
        go none h = refl
        go (some n) h = scan_prefix-walk fn n [] prefix prefix refl h s
