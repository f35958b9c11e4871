-- ===== src/Art/Tree.antt =====
-- art/tree.go: the tree, with Get, Put and Delete. An inner node is one of the four kinds, which bound
-- the number of its children. A node that the source
-- changes in place is returned anew. The prefixes are kept as such, without the arena of their bytes.
use yakutil.Base.{
  ℕ, suc, ◌+◌, ◌-◌, Bool, true, false, Option, none, some, List, [], ◌∷◌, ◌++◌, ltb, leb, ◌==◌,
  if◌then◌else◌, length, take, drop, get_or,
}
use yakutil.Art.Keys.{same, strip, prefix_mismatch}

pub data Kind : Type 0 where
  node4 node16 node48 node256 : Kind

-- The bound of a kind, and the kind that takes over when it is reached.
abbrev pub capacity : Kind → ℕ
capacity node4 = 4
capacity node16 = 16
capacity node48 = 48
capacity node256 = 256

abbrev pub larger : Kind → Kind
larger node4 = node16
larger node16 = node48
larger node48 = node256
larger node256 = node256

-- After a removal: the kind for as many children as are left. A node4 is handled apart.
abbrev pub smaller : Kind → ℕ → Kind
smaller node4 n = node4
smaller node16 n = if leb n 4 then node4 else node16
smaller node48 n = if leb n 16 then node16 else node48
smaller node256 n = if leb n 48 then node48 else node256

-- An inner node has its prefix, the entry whose key ends there, and its children by their bytes.
mutual
  pub data Node (V : Type 0) : Type 0 where
    leaf : List ℕ → V → Node V
    inner : Kind → List ℕ → Option (List ℕ × V) → Kids V → Node V

  pub data Kids (V : Type 0) : Type 0 where
    end : Kids V
    kid : ℕ → Node V → Kids V → Kids V

-- What `del` of a child does to the children: it is gone, or changed.
pub data Changed (V : Type 0) : Type 0 where
  gone : Kids V → Changed V
  kept : Kids V → Changed V

pub record Tree (V : Type 0) : Type 0 where
  pub root : Option (Node V)
  pub size : ℕ

module _ {V : Type 0} where
  -- `num`
  abbrev pub count : Kids V → ℕ
  count end = 0
  count (kid b n l) = suc (count l)

  -- `addChild`: before the first byte that is larger
  unfoldable pub add_child : ℕ → Node V → Kids V → Kids V
  add_child c n end = kid c n end
  add_child c n (kid b m l) =
      let later = kid b m (add_child c n l) in if ltb c b then kid c n (kid b m l) else later

  -- `addChild` on the node, grown before if it is full
  unfoldable pub add_grown : Kind → List ℕ → Option (List ℕ × V) → Kids V → ℕ → Node V → Node V
  add_grown kind pfx term kids c n =
      inner (if ltb (count kids) (capacity kind) then kind else larger kind) pfx term
        (add_child c n kids)

  abbrev pub value : Option (List ℕ × V) → Option V
  value none = none
  value (some (k, v)) = some v

  -- `get` at a node, for a key and the rest of it from the node on; at the children, `findChild`
  unfoldable mutual
    pub get : Node V → List ℕ → List ℕ → Option V
    get (leaf k v) key rest = if same k key then some v else none
    get (inner kind pfx term kids) key rest = elim (strip pfx rest) [
      | none ↦ none
      | some [] ↦ value term
      | some (c ∷ r) ↦ get_child kids c key r
    ]

    pub get_child : Kids V → ℕ → List ℕ → List ℕ → Option V
    get_child end c key r = none
    get_child (kid b n l) c key r =
        let here = get n key r in let later = get_child l c key r in if b == c then here else later

  -- The end of `splitLeaf`, for the common part of the two keys and what follows it in each.
  unfoldable pub fork_leaf : List ℕ → V → List ℕ → V → List ℕ → List ℕ → List ℕ → Option V × Node V
  fork_leaf k old key v common (x ∷ e) [] =
      (none, inner node4 common (some (key, v)) (add_child x (leaf k old) end))
  fork_leaf k old key v common [] [] = (some old, leaf k v)
  fork_leaf k old key v common [] (c ∷ s) =
      (none, inner node4 common (some (k, old)) (add_child c (leaf key v) end))
  fork_leaf k old key v common (x ∷ e) (c ∷ s) =
      (none, inner node4 common none (add_child c (leaf key v) (add_child x (leaf k old) end)))

  -- `splitLeaf`
  unfoldable pub split_leaf : List ℕ → V → List ℕ → V → List ℕ → Option V × Node V
  split_leaf k old key v rest =
      let exist_rest = drop (length key - length rest) k in
      let m = prefix_mismatch exist_rest rest in
      fork_leaf k old key v (take m exist_rest) (drop m exist_rest) (drop m rest)

  -- The end of `splitNode`, for what follows the mismatch in the key.
  unfoldable pub fork_node : List ℕ → Kids V → List ℕ → V → List ℕ → Node V
  fork_node common below key v [] = inner node4 common (some (key, v)) below
  fork_node common below key v (c ∷ s) = inner node4 common none (add_child c (leaf key v) below)

  -- `splitNode`
  unfoldable pub split_node :
      Kind → List ℕ → Option (List ℕ × V) → Kids V → List ℕ → V → List ℕ → ℕ → Node V
  split_node kind pfx term kids key v rest m =
      let below = inner kind (drop (m + 1) pfx) term kids in
      fork_node (take m pfx) (add_child (get_or pfx m 0) below end) key v (drop m rest)

  -- a key that ends at the node
  unfoldable pub put_term :
      Kind → List ℕ → Option (List ℕ × V) → Kids V → List ℕ → V → Option V × Node V
  put_term kind pfx none kids key v = (none, inner kind pfx (some (key, v)) kids)
  put_term kind pfx (some (k, old)) kids key v = (some old, inner kind pfx (some (k, v)) kids)

  -- a key that goes on: the child changed, or a new one
  unfoldable pub put_kids :
      Kind
      → List ℕ
      → Option (List ℕ × V)
      → Kids V
      → List ℕ
      → V
      → ℕ
      → Option (Option V × Kids V)
      → Option V × Node V
  put_kids kind pfx term kids key v c none = (none, add_grown kind pfx term kids c (leaf key v))
  put_kids kind pfx term kids key v c (some (old, kids')) = (old, inner kind pfx term kids')

  -- `put` at a leaf
  unfoldable pub put_leaf : List ℕ → V → List ℕ → V → List ℕ → Option V × Node V
  put_leaf k old key v rest =
      if same k key then (some old, leaf k v) else split_leaf k old key v rest

  -- `put` at a node, with `putInner4` to `putInner256`: the value replaced, if any, and the node
  unfoldable mutual
    pub put : Node V → List ℕ → V → List ℕ → Option V × Node V
    put (leaf k old) key v rest = put_leaf k old key v rest
    put (inner kind pfx term kids) key v rest =
        let m = prefix_mismatch pfx rest in
        let below : Option V × Node V = elim (drop (length pfx) rest) [
          | [] ↦ put_term kind pfx term kids key v
          | c ∷ r ↦ put_kids kind pfx term kids key v c (put_child kids c key v r)
        ] in
        if ltb m (length pfx) then (none, split_node kind pfx term kids key v rest m) else below

    -- `none` where there is no such child
    pub put_child : Kids V → ℕ → List ℕ → V → List ℕ → Option (Option V × Kids V)
    put_child end c key v r = none
    put_child (kid b n l) c key v r =
        let here = put n key v r in
        let later = put_child l c key v r in
        if b == c
        then some (here.0, kid b here.1 l)
        else elim later [ none ↦ none | some (old, l') ↦ some (old, kid b n l') ]

  -- `mergeWithChild`
  unfoldable pub merge_with_child : List ℕ → ℕ → Node V → Node V
  merge_with_child pfx b (leaf k v) = leaf k v
  merge_with_child pfx b (inner kind q term kids) = inner kind (pfx ++ (b ∷ q)) term kids

  -- `shrinkAfterDelete4`
  unfoldable pub shrink_after_delete4 : List ℕ → Option (List ℕ × V) → Kids V → Option (Node V)
  shrink_after_delete4 pfx none end = none
  shrink_after_delete4 pfx (some (k, v)) end = some (leaf k v)
  shrink_after_delete4 pfx none (kid b n end) = some (merge_with_child pfx b n)
  shrink_after_delete4 pfx none (kid b n (kid c m l)) =
      some (inner node4 pfx none (kid b n (kid c m l)))
  shrink_after_delete4 pfx (some x) (kid b n l) = some (inner node4 pfx (some x) (kid b n l))

  -- the node without its own entry
  unfoldable pub drop_term : Kind → List ℕ → Kids V → Option (Node V)
  drop_term node4 pfx kids = shrink_after_delete4 pfx none kids
  drop_term kind pfx kids = some (inner kind pfx none kids)

  -- the node after a child has gone
  unfoldable pub shrink : Kind → List ℕ → Option (List ℕ × V) → Kids V → Option (Node V)
  shrink node4 pfx term kids = shrink_after_delete4 pfx term kids
  shrink kind pfx term kids = some (inner (smaller kind (count kids)) pfx term kids)

  -- a key that ends at the node
  unfoldable pub del_term :
      Kind → List ℕ → Option (List ℕ × V) → Kids V → Option V × Option (Node V)
  del_term kind pfx none kids = (none, some (inner kind pfx none kids))
  del_term kind pfx (some (k, old)) kids = (some old, drop_term kind pfx kids)

  unfoldable pub behind : ℕ → Node V → Changed V → Changed V
  behind b n (gone l) = gone (kid b n l)
  behind b n (kept l) = kept (kid b n l)

  unfoldable pub replace_child : ℕ → Option (Node V) → Kids V → Changed V
  replace_child b none l = gone l
  replace_child b (some n) l = kept (kid b n l)

  unfoldable pub after_child : Kind → List ℕ → Option (List ℕ × V) → Changed V → Option (Node V)
  after_child kind pfx term (gone l) = shrink kind pfx term l
  after_child kind pfx term (kept l) = some (inner kind pfx term l)

  -- a key that goes on
  unfoldable pub del_kids :
      Kind
      → List ℕ
      → Option (List ℕ × V)
      → Kids V
      → Option (V × Changed V)
      → Option V × Option (Node V)
  del_kids kind pfx term kids none = (none, some (inner kind pfx term kids))
  del_kids kind pfx term kids (some (old, l)) = (some old, after_child kind pfx term l)

  -- `del` at a leaf
  unfoldable pub del_leaf : List ℕ → V → List ℕ → Option V × Option (Node V)
  del_leaf k v key = if same k key then (some v, none) else (none, some (leaf k v))

  -- `del` at a node, with `delInner4` to `delInner256`: the value deleted, if any, and the node, if any
  unfoldable mutual
    pub del : Node V → List ℕ → List ℕ → Option V × Option (Node V)
    del (leaf k v) key rest = del_leaf k v key
    del (inner kind pfx term kids) key rest = elim (strip pfx rest) [
      | none ↦ (none, some (inner kind pfx term kids))
      | some [] ↦ del_term kind pfx term kids
      | some (c ∷ r) ↦ del_kids kind pfx term kids (del_child kids c key r)
    ]

    -- `none` where there is no such child, or it has no such key
    pub del_child : Kids V → ℕ → List ℕ → List ℕ → Option (V × Changed V)
    del_child end c key r = none
    del_child (kid b n l) c key r =
        let here = del n key r in
        let later = del_child l c key r in
        if b == c
        then elim (here.0) [ none ↦ none | some old ↦ some (old, replace_child b here.1 l) ]
        else elim later [ none ↦ none | some (old, ch) ↦ some (old, behind b n ch) ]

  -- `put` and `del` at the root, which may be nil
  unfoldable pub put_root : Option (Node V) → List ℕ → V → Option V × Node V
  put_root none key v = (none, leaf key v)
  put_root (some n) key v = put n key v key

  unfoldable pub del_root : Option (Node V) → List ℕ → Option V × Option (Node V)
  del_root none key = (none, none)
  del_root (some n) key = del n key key

  -- `Get`
  unfoldable pub tree_get : Tree V → List ℕ → Option V
  tree_get t key = elim (t.root) [ none ↦ none | some n ↦ get n key key ]

  abbrev pub is_some : Option V → Bool
  is_some none = false
  is_some (some v) = true

  -- `Put`
  unfoldable pub tree_put : Tree V → List ℕ → V → Option V × Tree V
  tree_put t key v =
      let (old, n) = put_root t.root key v in
      (old, record { root = some n; size = if is_some old then t.size else t.size + 1 })

  -- `Delete`
  unfoldable pub tree_delete : Tree V → List ℕ → Option V × Tree V
  tree_delete t key =
      let (old, n) = del_root t.root key in
      (old, record { root = n; size = if is_some old then t.size - 1 else t.size })
