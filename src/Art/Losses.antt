-- ===== src/Art/Losses.antt =====
-- art/tree.go: how many entries `del` leaves.
use yakutil.Base.{
  ℕ, suc, ◌+◌, ◌≡◌, inl, inr, refl, sym, ◌∙◌, Option, none, some, List, [], ◌∷◌, arith, ◌==◌,
  Bool-cases,
}
use yakutil.Art.Keys.{same, strip}
use yakutil.Art.Tree.{
  Kind, node4, node16, node48, node256, Node, leaf, inner, Kids, end, kid, Changed, gone, kept,
  merge_with_child, shrink_after_delete4, drop_term, shrink, del_term, behind, replace_child,
  after_child, del_kids, del_leaf, del, del_child,
}
use yakutil.Art.Entries.{entries}
use yakutil.Art.Counts.{
  count_entries, count_kids, count-inner, count-kid, count-single, count-leaf, hit,
}

module _ {V : Type 0} where
  abbrev pub count_at : Option (Node V) → ℕ
  count_at none = 0
  count_at (some n) = count_entries n

  merge_with_child-count :
      (pfx : List ℕ) (b : ℕ) (n : Node V)
      → count_entries (merge_with_child pfx b n) ≡ count_entries n
  unfolding merge_with_child entries
  merge_with_child-count pfx b (leaf k v) = refl
  merge_with_child-count pfx b (inner kind q term kids) = refl

  shrink_after_delete4-count :
      (pfx : List ℕ) (kind : Kind) (term : Option (List ℕ × V)) (kids : Kids V)
      → count_at (shrink_after_delete4 pfx term kids) ≡ count_entries (inner kind pfx term kids)
  unfolding shrink_after_delete4 entries
  shrink_after_delete4-count pfx kind none end = refl
  shrink_after_delete4-count pfx kind (some (k, v)) end = refl
  shrink_after_delete4-count pfx kind none (kid b n end) =
      merge_with_child-count pfx b n ∙ sym (count-single b n)
  shrink_after_delete4-count pfx kind none (kid b n (kid c m l)) = refl
  shrink_after_delete4-count pfx kind (some x) (kid b n l) = refl

  shrink-count :
      (pfx : List ℕ) (kind : Kind) (term : Option (List ℕ × V)) (kids : Kids V)
      → count_at (shrink kind pfx term kids) ≡ count_entries (inner kind pfx term kids)
  unfolding shrink entries
  shrink-count pfx node4 term kids = shrink_after_delete4-count pfx node4 term kids
  shrink-count pfx node16 term kids = refl
  shrink-count pfx node48 term kids = refl
  shrink-count pfx node256 term kids = refl

  drop_term-count :
      (pfx : List ℕ) (kind : Kind) (kids : Kids V)
      → count_at (drop_term kind pfx kids) ≡ count_entries (inner kind pfx none kids)
  unfolding drop_term entries
  drop_term-count pfx node4 kids = shrink_after_delete4-count pfx node4 none kids
  drop_term-count pfx node16 kids = refl
  drop_term-count pfx node48 kids = refl
  drop_term-count pfx node256 kids = refl

  -- One entry less, if a value was deleted.
  abbrev pub Lost : ℕ → Option V × Option (Node V) → Type 0
  Lost before result = count_at (result.1) + hit (result.0) ≡ before

  abbrev kids_after : Changed V → Kids V
  kids_after (gone l) = l
  kids_after (kept l) = l

  abbrev LostKids : ℕ → Option (V × Changed V) → Type 0
  LostKids before none = Unit
  LostKids before (some (old, ch)) = suc (count_kids (kids_after ch)) ≡ before

  del_term-Lost :
      (kind : Kind) (pfx : List ℕ) (term : Option (List ℕ × V)) (kids : Kids V)
      → Lost (count_entries (inner kind pfx term kids)) (del_term kind pfx term kids)
  unfolding del_term
  del_term-Lost kind pfx none kids = omega arith
  del_term-Lost kind pfx (some (k, old)) kids = omega (
    arith,
    drop_term-count pfx kind kids,
    count-inner kind pfx none kids,
    count-inner kind pfx (some (k, old)) kids,
  )

  del_kids-Lost :
      (kind : Kind) (pfx : List ℕ) (term : Option (List ℕ × V)) (kids : Kids V)
      (result : Option (V × Changed V))
      → LostKids (count_kids kids) result
      → Lost (count_entries (inner kind pfx term kids)) (del_kids kind pfx term kids result)
  unfolding del_kids after_child
  del_kids-Lost kind pfx term kids none h = omega arith
  del_kids-Lost kind pfx term kids (some (old, gone l)) h = omega (
    arith,
    shrink-count pfx kind term l,
    count-inner kind pfx term l,
    count-inner kind pfx term kids,
  )
  del_kids-Lost kind pfx term kids (some (old, kept l)) h =
      omega (arith, count-inner kind pfx term l, count-inner kind pfx term kids)

  del_inner-Lost :
      (kind : Kind) (pfx : List ℕ) (term : Option (List ℕ × V)) (kids : Kids V) (key rest : List ℕ)
      → ((c : ℕ) (r : List ℕ) → LostKids (count_kids kids) (del_child kids c key r))
      → Lost (count_entries (inner kind pfx term kids)) (del (inner kind pfx term kids) key rest)
  unfolding del
  del_inner-Lost kind pfx term kids key rest each = go (strip pfx rest)
    where
      go :
          (o : Option (List ℕ))
          → Lost
              (count_entries (inner kind pfx term kids))
              (elim o as (λ x. Option V × Option (Node V)) [
                | none ↦ (none, some (inner kind pfx term kids))
                | some [] ↦ del_term kind pfx term kids
                | some (c ∷ r) ↦ del_kids kind pfx term kids (del_child kids c key r)
              ])
      go none = omega arith
      go (some []) = del_term-Lost kind pfx term kids
      go (some (c ∷ r)) = del_kids-Lost kind pfx term kids (del_child kids c key r) (each c r)

  found-Lost :
      (b : ℕ) (n : Node V) (l : Kids V) (result : Option V × Option (Node V))
      → Lost (count_entries n) result
      → LostKids (count_kids (kid b n l)) (elim (result.0) as (λ x. Option (V × Changed V)) [
        | none ↦ none
        | some old ↦ some (old, replace_child b result.1 l)
      ])
  unfolding replace_child
  found-Lost b n l (none, o) h = tt
  found-Lost b n l (some old, none) h = omega (arith, count-kid b n l)
  found-Lost b n l (some old, some n') h = omega (arith, count-kid b n l, count-kid b n' l)

  behind-Lost :
      (b : ℕ) (n : Node V) (l : Kids V) (later : Option (V × Changed V))
      → LostKids (count_kids l) later
      → LostKids (count_kids (kid b n l)) (elim later as (λ x. Option (V × Changed V)) [
        | none ↦ none
        | some (old, ch) ↦ some (old, behind b n ch)
      ])
  unfolding behind
  behind-Lost b n l none h = tt
  behind-Lost b n l (some (old, gone l')) h = omega (arith, count-kid b n l, count-kid b n l')
  behind-Lost b n l (some (old, kept l')) h = omega (arith, count-kid b n l, count-kid b n l')

  mutual
    unfolding del del_leaf

    pub del-Lost : (n : Node V) (key rest : List ℕ) → Lost (count_entries n) (del n key rest)
    del-Lost (leaf k v) key rest = elim (Bool-cases (same k key)) [
      | inl e ↦ rw e (sym (count-leaf k v))
      | inr e ↦ rw e (omega arith)
    ]
    del-Lost (inner kind pfx term kids) key rest =
        del_inner-Lost kind pfx term kids key rest (λ c r. del_child-Lost kids c key r)

    del_child-Lost :
        (l : Kids V) (c : ℕ) (key r : List ℕ) → LostKids (count_kids l) (del_child l c key r)
    del_child-Lost end c key r = tt
    del_child-Lost (kid b n l) c key r = elim (Bool-cases (b == c)) [
      | inl e ↦ rw e (found-Lost b n l (del n key r) (del-Lost n key r))
      | inr e ↦ rw e (behind-Lost b n l (del_child l c key r) (del_child-Lost l c key r))
    ]
