-- ===== src/Art/Counts.antt =====
-- art/tree.go: how many entries `put` leaves.
use yakutil.Base.{
  ℕ, suc, ◌+◌, ◌-◌, ◌≡◌, inl, inr, refl, sym, ◌∙◌, ap, Option, none, some, List, [], ◌∷◌, arith,
  ltb, ◌==◌, Bool-cases, if◌then◌else◌, length, length-append, take, drop, get_or,
}
use yakutil.Art.Keys.{same, prefix_mismatch}
use yakutil.Art.Tree.{
  Kind, node4, Node, leaf, inner, Kids, end, kid, add_child, add_grown, fork_leaf, split_leaf,
  fork_node, split_node, put_term, put_kids, put_leaf, put, put_child, count, capacity, larger,
}
use yakutil.Art.Entries.{entries, kids_entries, term_entries}

module _ {V : Type 0} where
  abbrev pub count_entries : Node V → ℕ
  count_entries n = length (entries n)

  abbrev pub count_kids : Kids V → ℕ
  count_kids l = length (kids_entries l)

  abbrev pub count_term : Option (List ℕ × V) → ℕ
  count_term term = length (term_entries term)

  pub count-inner :
      (kind : Kind) (pfx : List ℕ) (term : Option (List ℕ × V)) (kids : Kids V)
      → count_entries (inner kind pfx term kids) ≡ count_term term + count_kids kids
  unfolding entries
  count-inner kind pfx term kids = length-append (term_entries term) (kids_entries kids)

  pub count-kid :
      (b : ℕ) (n : Node V) (l : Kids V) → count_kids (kid b n l) ≡ count_entries n + count_kids l
  unfolding entries
  count-kid b n l = length-append (entries n) (kids_entries l)

  pub count-single : (b : ℕ) (n : Node V) → count_kids (kid b n end) ≡ count_entries n
  unfolding entries
  count-single b n = length-append (entries n) [] ∙ omega arith

  pub count-leaf : (k : List ℕ) (v : V) → count_entries (leaf k v) ≡ 1
  unfolding entries
  count-leaf k v = refl

  count-add_child :
      (c : ℕ) (n : Node V) (l : Kids V)
      → count_kids (add_child c n l) ≡ count_entries n + count_kids l
  unfolding add_child
  count-add_child c n end = count-kid c n end
  count-add_child c n (kid b m l) = elim (Bool-cases (ltb c b)) [
    | inl e ↦ rw e (count-kid c n (kid b m l))
    | inr e ↦
        rw e
          (omega (arith, count-kid b m (add_child c n l), count-add_child c n l, count-kid b m l))
  ]

  abbrev pub hit : Option V → ℕ
  hit none = 0
  hit (some v) = 1

  -- One entry more, unless a value was replaced.
  abbrev pub Grown : ℕ → Option V × Node V → Type 0
  Grown before result = count_entries (result.1) + hit (result.0) ≡ suc before

  fork_leaf-Grown :
      (k : List ℕ) (old : V) (key : List ℕ) (v : V) (common e r : List ℕ)
      → Grown 1 (fork_leaf k old key v common e r)
  unfolding fork_leaf add_child entries
  fork_leaf-Grown k old key v common [] [] = refl
  fork_leaf-Grown k old key v common (x ∷ e) [] = refl
  fork_leaf-Grown k old key v common [] (c ∷ r) = refl
  fork_leaf-Grown k old key v common (x ∷ e) (c ∷ r) = omega (
    arith,
    count-add_child c (leaf key v) (kid x (leaf k old) end),
    count-leaf key v,
    count-single x (leaf k old),
    count-leaf k old,
  )

  fork_node-Grown :
      (common : List ℕ) (b : ℕ) (below : Node V) (key : List ℕ) (v : V) (r : List ℕ)
      → count_entries (fork_node common (kid b below end) key v r) ≡ suc (count_entries below)
  unfolding fork_node
  fork_node-Grown common b below key v [] =
      count-inner node4 common (some (key, v)) (kid b below end)
      ∙ omega (arith, count-single b below)
  fork_node-Grown common b below key v (c ∷ r) =
      count-inner node4 common none (add_child c (leaf key v) (kid b below end))
      ∙ omega (
        arith,
        count-add_child c (leaf key v) (kid b below end),
        count-single b below,
        count-leaf key v,
      )

  split_node-Grown :
      (kind : Kind) (pfx : List ℕ) (term : Option (List ℕ × V)) (kids : Kids V) (key : List ℕ)
      (v : V) (rest : List ℕ) (m : ℕ)
      → count_entries (split_node kind pfx term kids key v rest m)
        ≡ suc (count_entries (inner kind pfx term kids))
  unfolding split_node add_child
  split_node-Grown kind pfx term kids key v rest m =
      let below = inner kind (drop (m + 1) pfx) term kids in
      fork_node-Grown (take m pfx) (get_or pfx m 0) below key v (drop m rest)
      ∙ ap suc
          (count-inner kind (drop (m + 1) pfx) term kids ∙ sym (count-inner kind pfx term kids))

  -- The same for the children.
  abbrev GrownKids : ℕ → Option (Option V × Kids V) → Type 0
  GrownKids before none = Unit
  GrownKids before (some (old, l')) = count_kids l' + hit old ≡ suc before

  put_term-Grown :
      (kind : Kind) (pfx : List ℕ) (term : Option (List ℕ × V)) (kids : Kids V) (key : List ℕ)
      (v : V)
      → Grown (count_entries (inner kind pfx term kids)) (put_term kind pfx term kids key v)
  unfolding put_term entries
  put_term-Grown kind pfx none kids key v = omega arith
  put_term-Grown kind pfx (some (k, old)) kids key v = omega arith

  put_kids-Grown :
      (kind : Kind) (pfx : List ℕ) (term : Option (List ℕ × V)) (kids : Kids V) (key : List ℕ)
      (v : V) (c : ℕ) (result : Option (Option V × Kids V))
      → GrownKids (count_kids kids) result
      → Grown
          (count_entries (inner kind pfx term kids))
          (put_kids kind pfx term kids key v c result)
  unfolding put_kids add_grown
  put_kids-Grown kind pfx term kids key v c none h = omega (
    arith,
    count-inner (if ltb (count kids) (capacity kind) then kind else larger kind) pfx term
        (add_child c (leaf key v) kids),
    count-add_child c (leaf key v) kids,
    count-leaf key v,
    count-inner kind pfx term kids,
  )
  put_kids-Grown kind pfx term kids key v c (some (old, l')) h =
      omega (arith, count-inner kind pfx term l', count-inner kind pfx term kids)

  put_inner-Grown :
      (kind : Kind) (pfx : List ℕ) (term : Option (List ℕ × V)) (kids : Kids V) (key : List ℕ)
      (v : V) (rest : List ℕ)
      → ((c : ℕ) (r : List ℕ) → GrownKids (count_kids kids) (put_child kids c key v r))
      → Grown (count_entries (inner kind pfx term kids)) (put (inner kind pfx term kids) key v rest)
  unfolding put
  put_inner-Grown kind pfx term kids key v rest each =
      elim (Bool-cases (ltb (prefix_mismatch pfx rest) (length pfx))) [
        | inl e ↦ rw e (
            omega
              (arith, split_node-Grown kind pfx term kids key v rest (prefix_mismatch pfx rest)))
        | inr e ↦ rw e (go (drop (length pfx) rest))
      ]
    where
      go :
          (d : List ℕ)
          → Grown (count_entries (inner kind pfx term kids)) (elim d as (λ x. Option V × Node V) [
            | [] ↦ put_term kind pfx term kids key v
            | c ∷ r ↦ put_kids kind pfx term kids key v c (put_child kids c key v r)
          ])
      go [] = put_term-Grown kind pfx term kids key v
      go (c ∷ r) = put_kids-Grown kind pfx term kids key v c (put_child kids c key v r) (each c r)

  put_leaf-Grown :
      (k : List ℕ) (old : V) (key : List ℕ) (v : V) (rest : List ℕ)
      → Grown (count_entries (leaf k old)) (put (leaf k old) key v rest)
  unfolding put put_leaf split_leaf entries
  put_leaf-Grown k old key v rest = elim (Bool-cases (same k key)) [
    | inl e ↦ rw e refl
    | inr e ↦
        let exist_rest = drop (length key - length rest) k in
        let m = prefix_mismatch exist_rest rest in
        rw e (fork_leaf-Grown k old key v (take m exist_rest) (drop m exist_rest) (drop m rest))
  ]

  behind-Grown :
      (b : ℕ) (n : Node V) (l : Kids V) (later : Option (Option V × Kids V))
      → GrownKids (count_kids l) later
      → GrownKids (count_kids (kid b n l)) (elim later as (λ x. Option (Option V × Kids V)) [
        | none ↦ none
        | some (old, l') ↦ some (old, kid b n l')
      ])
  behind-Grown b n l none h = tt
  behind-Grown b n l (some (old, l')) h = omega (arith, count-kid b n l, count-kid b n l')

  mutual
    unfolding put

    pub put-Grown :
        (n : Node V) (key : List ℕ) (v : V) (rest : List ℕ)
        → Grown (count_entries n) (put n key v rest)
    put-Grown (leaf k old) key v rest = put_leaf-Grown k old key v rest
    put-Grown (inner kind pfx term kids) key v rest =
        put_inner-Grown kind pfx term kids key v rest (λ c r. put_child-Grown kids c key v r)

    put_child-Grown :
        (l : Kids V) (c : ℕ) (key : List ℕ) (v : V) (r : List ℕ)
        → GrownKids (count_kids l) (put_child l c key v r)
    put_child-Grown end c key v r = tt
    put_child-Grown (kid b n l) c key v r = elim (Bool-cases (b == c)) [
      | inl e ↦
          rw e
            (omega (arith, put-Grown n key v r, count-kid b n l, count-kid b ((put n key v r).1) l))
      | inr e ↦ rw e (behind-Grown b n l (put_child l c key v r) (put_child-Grown l c key v r))
    ]
