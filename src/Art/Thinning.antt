-- ===== src/Art/Thinning.antt =====
-- art/tree.go: Delete leaves room for the children of each node, in the smaller kinds too.
use yakutil.Base.{
  ℕ, suc, ◌<◌, ◌≡◌, refl, ap, inl, inr, Option, none, some, List, [], ◌∷◌, arith, ◌==◌, Bool-cases,
}
use yakutil.Art.Tree.{
  Kind, node4, node16, node48, node256, Node, leaf, inner, Kids, end, kid, Changed, gone, kept,
  count, merge_with_child, shrink_after_delete4, drop_term, shrink, del_term, behind, replace_child,
  after_child, del_kids, del_leaf, del, del_child, Tree, tree_put, tree_delete, put_root, del_root,
}
use yakutil.Art.Keys.{same, strip}
use yakutil.Art.Paths.{Above}
use yakutil.Art.Shapes.{Bytes, IsShaped, AreShaped, Bytes-append}
use yakutil.Art.Rooms.{put-Shaped}

module _ {V : Type 0} where
  abbrev pub IsShapedAt : Option (Node V) → Type 0
  IsShapedAt none = Unit
  IsShapedAt (some n) = IsShaped n

  merge_with_child-IsShaped :
      (pfx : List ℕ) (b : ℕ) (n : Node V)
      → Bytes pfx
      → b < 256
      → IsShaped n
      → IsShaped (merge_with_child pfx b n)
  unfolding merge_with_child IsShaped
  merge_with_child-IsShaped pfx b (leaf k v) bp small good = good
  merge_with_child-IsShaped pfx b (inner kind q term kids) bp small (room, bq, of_term, good) =
      (room, Bytes-append pfx (b ∷ q) bp (small, bq), of_term, good)

  shrink_after_delete4-IsShaped :
      (pfx : List ℕ) (term : Option (List ℕ × V)) (kids : Kids V)
      → IsShaped (inner node4 pfx term kids)
      → IsShapedAt (shrink_after_delete4 pfx term kids)
  unfolding shrink_after_delete4 IsShaped
  shrink_after_delete4-IsShaped pfx none end good = tt
  shrink_after_delete4-IsShaped pfx (some (k, v)) end (room, bp, bk, good) = bk
  shrink_after_delete4-IsShaped pfx none (kid b n end) (room, bp, bk, (small, up, mine, rest)) =
      merge_with_child-IsShaped pfx b n bp small mine
  shrink_after_delete4-IsShaped pfx none (kid b n (kid c m l)) good = good
  shrink_after_delete4-IsShaped pfx (some x) (kid b n l) good = good

  -- The smaller kind has room for what is left.
  shrink-IsShaped :
      (kind : Kind) (pfx : List ℕ) (term : Option (List ℕ × V)) (kids : Kids V)
      → IsShaped (inner kind pfx term kids)
      → IsShapedAt (shrink kind pfx term kids)
  unfolding shrink IsShaped
  shrink-IsShaped node4 pfx term kids good = shrink_after_delete4-IsShaped pfx term kids good
  shrink-IsShaped node16 pfx term kids (room, bp, bk, good) = (ground (arith, room), bp, bk, good)
  shrink-IsShaped node48 pfx term kids (room, bp, bk, good) = (ground (arith, room), bp, bk, good)
  shrink-IsShaped node256 pfx term kids (room, bp, bk, good) = (ground (arith, room), bp, bk, good)

  del_term-IsShaped :
      (kind : Kind) (pfx : List ℕ) (term : Option (List ℕ × V)) (kids : Kids V)
      → IsShaped (inner kind pfx term kids)
      → IsShapedAt ((del_term kind pfx term kids).1)
  unfolding del_term drop_term IsShaped
  del_term-IsShaped kind pfx none kids good = good
  del_term-IsShaped node4 pfx (some (k, v)) kids (room, bp, bk, good) =
      shrink_after_delete4-IsShaped pfx none kids (room, bp, tt, good)
  del_term-IsShaped node16 pfx (some (k, v)) kids (room, bp, bk, good) = (room, bp, tt, good)
  del_term-IsShaped node48 pfx (some (k, v)) kids (room, bp, bk, good) = (room, bp, tt, good)
  del_term-IsShaped node256 pfx (some (k, v)) kids (room, bp, bk, good) = (room, bp, tt, good)

  -- What `del_child` leaves of the children.
  abbrev ThinKids : Kids V → Option (V × Changed V) → Type 0
  ThinKids l none = Unit
  ThinKids l (some (old, gone l')) =
      AreShaped l' × (suc (count l') ≡ count l) × ((a : ℕ) → Above a l → Above a l')
  ThinKids l (some (old, kept l')) =
      AreShaped l' × (count l' ≡ count l) × ((a : ℕ) → Above a l → Above a l')

  del_kids-IsShaped :
      (kind : Kind) (pfx : List ℕ) (term : Option (List ℕ × V)) (kids : Kids V)
      (result : Option (V × Changed V))
      → IsShaped (inner kind pfx term kids)
      → ThinKids kids result
      → IsShapedAt ((del_kids kind pfx term kids result).1)
  unfolding del_kids after_child IsShaped
  del_kids-IsShaped kind pfx term kids none good h = good
  del_kids-IsShaped kind pfx term kids (some (old, gone l)) (room, bp, bk, good) (good', less, up) =
      shrink-IsShaped kind pfx term l (omega arith, bp, bk, good')
  del_kids-IsShaped kind pfx term kids (some (old, kept l)) (room, bp, bk, good)
        (good', same_count, up) =
      (rw same_count room, bp, bk, good')

  del_inner-IsShaped :
      (kind : Kind) (pfx : List ℕ) (term : Option (List ℕ × V)) (kids : Kids V) (key rest : List ℕ)
      → IsShaped (inner kind pfx term kids)
      → ((c : ℕ) (r : List ℕ) → ThinKids kids (del_child kids c key r))
      → IsShapedAt ((del (inner kind pfx term kids) key rest).1)
  unfolding del
  del_inner-IsShaped kind pfx term kids key rest good each = go (strip pfx rest)
    where
      go :
          (o : Option (List ℕ))
          → IsShapedAt (
              (elim o as (λ x. Option V × Option (Node V)) [
                | none ↦ (none, some (inner kind pfx term kids))
                | some [] ↦ del_term kind pfx term kids
                | some (c ∷ r) ↦ del_kids kind pfx term kids (del_child kids c key r)
              ]).1)
      go none = good
      go (some []) = del_term-IsShaped kind pfx term kids good
      go (some (c ∷ r)) =
          del_kids-IsShaped kind pfx term kids (del_child kids c key r) good (each c r)

  found-ThinKids :
      (b : ℕ) (n : Node V) (l : Kids V) (result : Option V × Option (Node V))
      → AreShaped (kid b n l)
      → IsShapedAt (result.1)
      → ThinKids (kid b n l) (elim (result.0) as (λ x. Option (V × Changed V)) [
        | none ↦ none
        | some old ↦ some (old, replace_child b result.1 l)
      ])
  unfolding replace_child IsShaped
  found-ThinKids b n l (none, o) good h = tt
  found-ThinKids b n l (some old, none) (small, up, mine, rest) h =
      (rest, refl, λ a (less, more). more)
  found-ThinKids b n l (some old, some n') (small, up, mine, rest) h =
      ((small, up, h, rest), refl, λ a less. less)

  behind-ThinKids :
      (b : ℕ) (n : Node V) (l : Kids V) (later : Option (V × Changed V))
      → AreShaped (kid b n l)
      → ThinKids l later
      → ThinKids (kid b n l) (elim later as (λ x. Option (V × Changed V)) [
        | none ↦ none
        | some (old, ch) ↦ some (old, behind b n ch)
      ])
  unfolding behind IsShaped
  behind-ThinKids b n l none good h = tt
  behind-ThinKids b n l (some (old, gone l')) (small, above, mine, rest) (good, less, up) =
      ((small, up b above, mine, good), ap suc less, λ a (h, more). (h, up a more))
  behind-ThinKids b n l (some (old, kept l')) (small, above, mine, rest) (good, less, up) =
      ((small, up b above, mine, good), ap suc less, λ a (h, more). (h, up a more))

  mutual
    unfolding del del_leaf IsShaped

    del-Shaped : (n : Node V) (key rest : List ℕ) → IsShaped n → IsShapedAt ((del n key rest).1)
    del-Shaped (leaf k v) key rest good = elim (Bool-cases (same k key)) [
      | inl e ↦ rw e tt
      | inr e ↦ rw e good
    ]
    del-Shaped (inner kind pfx term kids) key rest good =
        del_inner-IsShaped kind pfx term kids key rest good
          (λ c r. del_child-Shaped kids c key r good.3)

    del_child-Shaped :
        (l : Kids V) (c : ℕ) (key r : List ℕ) → AreShaped l → ThinKids l (del_child l c key r)
    del_child-Shaped end c key r good = tt
    del_child-Shaped (kid b n l) c key r good = elim (Bool-cases (b == c)) [
      | inl e ↦ rw e (found-ThinKids b n l (del n key r) good (del-Shaped n key r good.2))
      | inr e ↦
          rw e
            (behind-ThinKids b n l (del_child l c key r) good (del_child-Shaped l c key r good.3))
    ]

  put_root-IsShaped :
      (o : Option (Node V)) (key : List ℕ) (v : V)
      → Bytes key
      → IsShapedAt o
      → IsShaped ((put_root o key v).1)
  unfolding put_root IsShaped
  put_root-IsShaped none key v bkey good = bkey
  put_root-IsShaped (some n) key v bkey good = put-Shaped n key v key bkey bkey good

  del_root-IsShaped :
      (o : Option (Node V)) (key : List ℕ) → IsShapedAt o → IsShapedAt ((del_root o key).1)
  unfolding del_root
  del_root-IsShaped none key good = tt
  del_root-IsShaped (some n) key good = del-Shaped n key key good

  -- In a tree in which no node has more children than its kind has room for, their bytes ascend, and
  -- all bytes are below 256, that is still so after Put of a key of bytes below 256, and after
  -- Delete.
  pub tree_put-IsShaped :
      (t : Tree V) (key : List ℕ) (v : V)
      → IsShapedAt (t.root)
      → Bytes key
      → IsShapedAt ((tree_put t key v).1.root) × IsShapedAt ((tree_delete t key).1.root)
  unfolding tree_put tree_delete
  tree_put-IsShaped t key v good bkey =
      (put_root-IsShaped (t.root) key v bkey good, del_root-IsShaped (t.root) key good)
