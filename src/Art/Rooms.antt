-- ===== src/Art/Rooms.antt =====
-- art/tree.go: Put leaves room for the children of each node.
use yakutil.Base.{
  ℕ, suc, ◌<◌, ◌≡◌, ◌≢◌, refl, ap, inl, inr, Option, none, some, List, [], ◌∷◌, arith, ltb, ◌==◌,
  Bool-cases, length, drop,
}
use yakutil.Art.Tree.{
  Kind, Node, leaf, inner, Kids, end, kid, count, put_term, put_kids, put_leaf, put, put_child,
}
use yakutil.Art.Keys.{same, prefix_mismatch}
use yakutil.Art.Paths.{Above, Absent}
use yakutil.Art.Shapes.{
  Bytes, BytesOf, IsShaped, AreShaped, Bytes-drop, add_grown-IsShaped, split_leaf-IsShaped,
  split_node-IsShaped,
}

module _ {V : Type 0} where
  -- The children after a change: as many as before, with no byte below them that was not.
  abbrev ShapedKids : Kids V → ℕ → Option (Option V × Kids V) → Type 0
  ShapedKids l c none = Absent c l
  ShapedKids l c (some (old, l')) =
      AreShaped l' × (count l' ≡ count l) × ((a : ℕ) → Above a l → Above a l')

  put_inner-IsShaped :
      (kind : Kind) (pfx : List ℕ) (term : Option (List ℕ × V)) (kids : Kids V) (key : List ℕ)
      (v : V) (rest : List ℕ)
      → Bytes key
      → Bytes rest
      → IsShaped (inner kind pfx term kids)
      → ((c : ℕ) (r : List ℕ) → Bytes r → ShapedKids kids c (put_child kids c key v r))
      → IsShaped ((put (inner kind pfx term kids) key v rest).1)
  unfolding put put_term put_kids IsShaped
  put_inner-IsShaped kind pfx term kids key v rest bkey br (room, bytes, of_term, shaped) each =
      elim (Bool-cases (ltb (prefix_mismatch pfx rest) (length pfx))) [
        | inl e ↦ rw e (
            split_node-IsShaped kind pfx term kids key v rest bkey br (ground (arith, e))
              (room, bytes, of_term, shaped))
        | inr e ↦ rw e (go (drop (length pfx) rest) (Bytes-drop (length pfx) rest br))
      ]
    where
      ended : (t : Option (List ℕ × V)) → BytesOf t → IsShaped ((put_term kind pfx t kids key v).1)
      ended none of_t = (room, bytes, bkey, shaped)
      ended (some (k, old)) of_t = (room, bytes, of_t, shaped)

      behind_child :
          (c : ℕ) (o : Option (Option V × Kids V))
          → c < 256
          → ShapedKids kids c o
          → IsShaped ((put_kids kind pfx term kids key v c o).1)
      behind_child c none small absent =
          add_grown-IsShaped kind pfx term kids c (leaf key v) absent small bkey
            (room, bytes, of_term, shaped)
      behind_child c (some (old, l')) small (good, same_count, up) =
          (rw same_count room, bytes, of_term, good)

      go :
          (d : List ℕ)
          → Bytes d
          → IsShaped (
              (elim d as (λ x. Option V × Node V) [
                | [] ↦ put_term kind pfx term kids key v
                | c ∷ r ↦ put_kids kind pfx term kids key v c (put_child kids c key v r)
              ]).1)
      go [] bd = ended term of_term
      go (c ∷ r) (small, bd) = behind_child c (put_child kids c key v r) small (each c r bd)

  put_leaf-IsShaped :
      (k : List ℕ) (old : V) (key : List ℕ) (v : V) (rest : List ℕ)
      → Bytes k
      → Bytes key
      → Bytes rest
      → IsShaped ((put (leaf k old) key v rest).1)
  unfolding put put_leaf IsShaped
  put_leaf-IsShaped k old key v rest bk bkey br = elim (Bool-cases (same k key)) [
    | inl e ↦ rw e bk
    | inr e ↦ rw e (split_leaf-IsShaped k old key v rest bk bkey br)
  ]

  behind-ShapedKids :
      (b : ℕ) (n : Node V) (l : Kids V) (c : ℕ) (later : Option (Option V × Kids V))
      → b ≢ c
      → AreShaped (kid b n l)
      → ShapedKids l c later
      → ShapedKids (kid b n l) c (elim later as (λ x. Option (Option V × Kids V)) [
        | none ↦ none
        | some (old, l') ↦ some (old, kid b n l')
      ])
  unfolding IsShaped
  behind-ShapedKids b n l c none other good absent = (other, absent)
  behind-ShapedKids b n l c (some (old, l')) other (at, above, mine, rest) (good, same_count, up) =
      ((at, up b above, mine, good), ap suc same_count, λ a (h, more). (h, up a more))

  mutual
    unfolding put IsShaped

    pub put-Shaped :
        (n : Node V) (key : List ℕ) (v : V) (rest : List ℕ)
        → Bytes key
        → Bytes rest
        → IsShaped n
        → IsShaped ((put n key v rest).1)
    put-Shaped (leaf k old) key v rest bkey br good =
        put_leaf-IsShaped k old key v rest good bkey br
    put-Shaped (inner kind pfx term kids) key v rest bkey br good =
        put_inner-IsShaped kind pfx term kids key v rest bkey br good
          (λ c r b. put_child-Shaped kids c key v r bkey b good.3)

    put_child-Shaped :
        (l : Kids V) (c : ℕ) (key : List ℕ) (v : V) (r : List ℕ)
        → Bytes key
        → Bytes r
        → AreShaped l
        → ShapedKids l c (put_child l c key v r)
    put_child-Shaped end c key v r bkey br good = tt
    put_child-Shaped (kid b n l) c key v r bkey br good = elim (Bool-cases (b == c)) [
      | inl e ↦ rw e ((good.0, good.1, put-Shaped n key v r bkey br good.2, good.3), refl, λ a h. h)
      | inr e ↦ rw e (
          behind-ShapedKids b n l c (put_child l c key v r) (ground (arith, e)) good
            (put_child-Shaped l c key v r bkey br good.3))
    ]
