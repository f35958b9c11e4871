-- ===== src/Art/Shapes.antt =====
-- art/tree.go, art/node.go: no node has more children than its kind has room for.
use yakutil.Base.{
  ℕ, zero, suc, ◌+◌, ◌-◌, ◌≤◌, ◌<◌, ◌≡◌, refl, ap, inl, inr, Option, none, some, List, [], ◌∷◌,
  ◌++◌, arith, ltb, ◌==◌, Bool-cases, if◌then◌else◌, length, take, drop, get_or,
}
use yakutil.Art.Tree.{
  Kind, node4, node16, node48, node256, Node, leaf, inner, Kids, end, kid, count, capacity, larger,
  add_child, add_grown, fork_leaf, split_leaf, fork_node, split_node,
}
use yakutil.Art.Keys.{prefix_mismatch, HeadsDiffer}
use yakutil.Art.Paths.{Above, Absent, Above-add_child, Above-trans}

abbrev pub Bytes : List ℕ → Type 0
Bytes [] = Unit
Bytes (c ∷ l) = (c < 256) × Bytes l

pub Bytes-append : (a b : List ℕ) → Bytes a → Bytes b → Bytes (a ++ b)
Bytes-append [] b h g = g
Bytes-append (c ∷ a) b (at, h) g = (at, Bytes-append a b h g)

Bytes-take : (n : ℕ) (a : List ℕ) → Bytes a → Bytes (take n a)
Bytes-take zero a h = tt
Bytes-take (suc n) [] h = tt
Bytes-take (suc n) (c ∷ a) (at, h) = (at, Bytes-take n a h)

pub Bytes-drop : (n : ℕ) (a : List ℕ) → Bytes a → Bytes (drop n a)
Bytes-drop zero a h = h
Bytes-drop (suc n) [] h = tt
Bytes-drop (suc n) (c ∷ a) (at, h) = Bytes-drop n a h

Bytes-get_or : (a : List ℕ) (n : ℕ) → Bytes a → get_or a n 0 < 256
Bytes-get_or [] n h = omega arith
Bytes-get_or (c ∷ a) zero (at, h) = at
Bytes-get_or (c ∷ a) (suc n) (at, h) = Bytes-get_or a n h

grown_room :
    (kind : Kind) (n : ℕ)
    → n ≤ capacity kind
    → suc n ≤ 256
    → suc n ≤ capacity (if ltb n (capacity kind) then kind else larger kind)
grown_room node4 n h top = ground (arith, h)
grown_room node16 n h top = ground (arith, h)
grown_room node48 n h top = ground (arith, h)
grown_room node256 n h top = ground (arith, h, top)

parted : (a b : List ℕ) → HeadsDiffer (drop (prefix_mismatch a b) a) (drop (prefix_mismatch a b) b)
unfolding prefix_mismatch
parted [] b = tt
parted (x ∷ a) [] = tt
parted (x ∷ a) (y ∷ b) = elim (Bool-cases (x == y)) [
  | inl e ↦ rw e (parted a b)
  | inr n ↦ rw n (ground (arith, n))
]

parted_node :
    (a b : List ℕ)
    → prefix_mismatch a b < length a
    → HeadsDiffer (get_or a (prefix_mismatch a b) 0 ∷ []) (drop (prefix_mismatch a b) b)
unfolding prefix_mismatch
parted_node [] b short = absurd (omega arith)
parted_node (x ∷ a) [] short = tt
parted_node (x ∷ a) (y ∷ b) short = elim (Bool-cases (x == y)) [
  | inl e ↦ rw e (parted_node a b (ground (arith, e, short)))
  | inr n ↦ rw n (ground (arith, n))
]

module _ {V : Type 0} where
  abbrev pub BytesOf : Option (List ℕ × V) → Type 0
  BytesOf none = Unit
  BytesOf (some (k, v)) = Bytes k

  -- The bytes are below 256, those of the children ascend, and each kind has room for its children.
  unfoldable mutual
    pub IsShaped : Node V → Type 0
    IsShaped (leaf k v) = Bytes k
    IsShaped (inner kind pfx term kids) =
        (count kids ≤ capacity kind) × Bytes pfx × BytesOf term × AreShaped kids

    pub AreShaped : Kids V → Type 0
    AreShaped end = Unit
    AreShaped (kid b n l) = (b < 256) × Above b l × IsShaped n × AreShaped l

  pub count-add_child : (c : ℕ) (n : Node V) (l : Kids V) → count (add_child c n l) ≡ suc (count l)
  unfolding add_child
  count-add_child c n end = refl
  count-add_child c n (kid b m l) = elim (Bool-cases (ltb c b)) [
    | inl e ↦ rw e refl
    | inr e ↦ rw e (ap suc (count-add_child c n l))
  ]

  AreShaped-add_child :
      (l : Kids V) (c : ℕ) (n : Node V)
      → Absent c l
      → c < 256
      → IsShaped n
      → AreShaped l
      → AreShaped (add_child c n l)
  unfolding add_child IsShaped
  AreShaped-add_child end c n a small good kids = (small, tt, good, tt)
  AreShaped-add_child (kid b m l) c n (other, a) small good (at, up, mine, kids) =
      elim (Bool-cases (ltb c b)) [
        | inl e ↦ rw e (
          small,
          (ground (arith, e), Above-trans l c b (ground (arith, e)) up),
          good,
          (at, up, mine, kids),
        )
        | inr e ↦ rw e (
          at,
          Above-add_child l b c n (ground (arith, e)) up,
          mine,
          AreShaped-add_child l c n a small good kids,
        )
      ]

  -- Bytes that ascend from `a` on are no more than those that are left.
  count-Above : (l : Kids V) (a : ℕ) → a < 256 → Above a l → AreShaped l → count l + a < 256
  unfolding IsShaped
  count-Above end a small up good = omega arith
  count-Above (kid b n l) a small (less, more) (at, up, mine, good) =
      omega (arith, count-Above l b at up good)

  count_most : (l : Kids V) → AreShaped l → count l ≤ 256
  unfolding IsShaped
  count_most end good = omega arith
  count_most (kid b n l) (at, up, mine, good) = omega (arith, count-Above l b at up good)

  pub add_grown-IsShaped :
      (kind : Kind) (pfx : List ℕ) (term : Option (List ℕ × V)) (kids : Kids V) (c : ℕ) (n : Node V)
      → Absent c kids
      → c < 256
      → IsShaped n
      → IsShaped (inner kind pfx term kids)
      → IsShaped (add_grown kind pfx term kids c n)
  unfolding add_grown IsShaped
  add_grown-IsShaped kind pfx term kids c n absent small good (room, bytes, of_term, shaped) =
      let after = AreShaped-add_child kids c n absent small good shaped in
      let more = count-add_child c n kids in
      (
        rw more (
            grown_room kind (count kids) room
              (omega (arith, count_most (add_child c n kids) after))),
        bytes,
        of_term,
        after,
      )

  fork_leaf-IsShaped :
      (k : List ℕ) (old : V) (key : List ℕ) (v : V) (common e r : List ℕ)
      → Bytes k
      → Bytes key
      → Bytes common
      → Bytes e
      → Bytes r
      → HeadsDiffer e r
      → IsShaped ((fork_leaf k old key v common e r).1)
  unfolding fork_leaf add_child IsShaped
  fork_leaf-IsShaped k old key v common [] [] bk bkey bc be br apart = bk
  fork_leaf-IsShaped k old key v common (x ∷ e) [] bk bkey bc (bx, be) br apart =
      (omega arith, bc, bkey, (bx, tt, bk, tt))
  fork_leaf-IsShaped k old key v common [] (c ∷ r) bk bkey bc be (b, br) apart =
      (omega arith, bc, bk, (b, tt, bkey, tt))
  fork_leaf-IsShaped k old key v common (x ∷ e) (c ∷ r) bk bkey bc (bx, be) (b, br) apart = (
    omega (arith, count-add_child c (leaf key v) (kid x (leaf k old) end)),
    bc,
    tt,
    AreShaped-add_child (kid x (leaf k old) end) c (leaf key v) (apart, tt) b bkey (bx, tt, bk, tt),
  )

  pub split_leaf-IsShaped :
      (k : List ℕ) (old : V) (key : List ℕ) (v : V) (rest : List ℕ)
      → Bytes k
      → Bytes key
      → Bytes rest
      → IsShaped ((split_leaf k old key v rest).1)
  unfolding split_leaf
  split_leaf-IsShaped k old key v rest bk bkey br =
      let e = drop (length key - length rest) k in
      let m = prefix_mismatch e rest in
      let be = Bytes-drop (length key - length rest) k bk in
      fork_leaf-IsShaped k old key v (take m e) (drop m e) (drop m rest) bk bkey (Bytes-take m e be)
        (Bytes-drop m e be) (Bytes-drop m rest br) (parted e rest)

  fork_node-IsShaped :
      (common : List ℕ) (b : ℕ) (below : Node V) (key : List ℕ) (v : V) (r : List ℕ)
      → Bytes common
      → b < 256
      → Bytes key
      → Bytes r
      → HeadsDiffer (b ∷ []) r
      → IsShaped below
      → IsShaped (fork_node common (kid b below end) key v r)
  unfolding fork_node IsShaped
  fork_node-IsShaped common b below key v [] bc small bkey br apart good =
      (omega arith, bc, bkey, (small, tt, good, tt))
  fork_node-IsShaped common b below key v (c ∷ r) bc small bkey (at, br) apart good = (
    omega (arith, count-add_child c (leaf key v) (kid b below end)),
    bc,
    tt,
    AreShaped-add_child (kid b below end) c (leaf key v) (apart, tt) at bkey (small, tt, good, tt),
  )

  pub split_node-IsShaped :
      (kind : Kind) (pfx : List ℕ) (term : Option (List ℕ × V)) (kids : Kids V) (key : List ℕ)
      (v : V) (rest : List ℕ)
      → Bytes key
      → Bytes rest
      → prefix_mismatch pfx rest < length pfx
      → IsShaped (inner kind pfx term kids)
      → IsShaped (split_node kind pfx term kids key v rest (prefix_mismatch pfx rest))
  unfolding split_node add_child IsShaped
  split_node-IsShaped kind pfx term kids key v rest bkey br short (room, bytes, of_term, shaped) =
      let m = prefix_mismatch pfx rest in
      fork_node-IsShaped (take m pfx) (get_or pfx m 0) (inner kind (drop (m + 1) pfx) term kids) key
        v (drop m rest) (Bytes-take m pfx bytes) (Bytes-get_or pfx m bytes) bkey
        (Bytes-drop m rest br) (parted_node pfx rest short)
        (room, Bytes-drop (m + 1) pfx bytes, of_term, shaped)
