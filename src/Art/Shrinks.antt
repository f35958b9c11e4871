-- ===== src/Art/Shrinks.antt =====
-- art/tree.go: the nodes that `shrinkAfterDelete4`, `mergeWithChild` and the shrinking to a smaller kind
-- leave.
use mathlib.Core.Path.{subst}
use mathlib.Core.List.{append_assoc, append-nil}
use yakutil.Base.{
  ℕ, ◌≡◌, inl, inr, refl, sym, ◌∙◌, ap, Option, none, some, List, [], ◌∷◌, ◌++◌, ◌==◌, Bool-cases,
  if◌then◌else◌, ◌>>=◌,
}
use yakutil.Art.Keys.{same, strip, strip-ext, strip-concat}
use yakutil.Art.Tree.{
  Kind, node4, node16, node48, node256, Node, leaf, inner, Kids, end, kid, get, add_child, count,
  merge_with_child, shrink_after_delete4, drop_term, shrink, smaller,
}
use yakutil.Art.Forks.{nothing, strip-nothing, leaf-strip, get_child-leaf}
use yakutil.Art.Paths.{IsNode, AreKids, EndsAt, get_rest, get-inner}

module _ {V : Type 0} where
  -- Get where there may be no node.
  abbrev pub get_at : Option (Node V) → List ℕ → List ℕ → Option V
  get_at none j t = none
  get_at (some n) j t = get n j t

  abbrev pub IsNodeAt : List ℕ → Option (Node V) → Type 0
  IsNodeAt p none = Unit
  IsNodeAt p (some n) = IsNode p n

  -- Another node with the same entries.
  pub record Same (p : List ℕ) (n : Node V) (o : Option (Node V)) : Type 0 where
    pub valid : IsNodeAt p o
    pub reads : (j t : List ℕ) → j ≡ p ++ t → get_at o j t ≡ get n j t

  other_kind :
      (p pfx : List ℕ) (kind kind' : Kind) (term : Option (List ℕ × V)) (kids : Kids V)
      → IsNode p (inner kind pfx term kids)
      → Same p (inner kind pfx term kids) (some (inner kind' pfx term kids))
  unfolding IsNode get
  other_kind p pfx kind kind' term kids good = record { valid = good; reads = λ j t is_j. refl }

  -- A node that takes the place of an inner one reads the same behind its prefix.
  reads-inner :
      (p pfx j t : List ℕ) (kind : Kind) (term : Option (List ℕ × V)) (kids : Kids V)
      (f : List ℕ → Option V)
      → j ≡ p ++ t
      → ((t' : List ℕ) → j ≡ (p ++ pfx) ++ t' → f t' ≡ get_rest term kids j t')
      → (strip pfx t >>= f) ≡ get (inner kind pfx term kids) j t
  reads-inner p pfx j t kind term kids f is_j each =
      strip-ext pfx t f (get_rest term kids j)
        (λ t' is_t. each t' (is_j ∙ (ap (λ x. p ++ x) is_t ∙ sym (append_assoc p pfx t'))))
      ∙ sym (get-inner kind pfx term kids j t)

  none_left : (p pfx : List ℕ) (kind : Kind) → Same p (inner kind pfx none end) none
  unfolding get
  none_left p pfx kind = record {
    valid = tt;
    reads = λ j t is_j.
        sym (strip-nothing pfx t)
        ∙ reads-inner p pfx j t kind none end nothing is_j (λ t' is_j'. nothing_there j t');
  }
    where
      nothing_there : (j t' : List ℕ) → nothing {V = V} t' ≡ get_rest none end j t'
      nothing_there j [] = refl
      nothing_there j (b ∷ t') = refl

  entry_left :
      (p pfx k : List ℕ) (v : V) (kind : Kind)
      → k ≡ p ++ pfx
      → Same p (inner kind pfx (some (k, v)) end) (some (leaf k v))
  unfolding IsNode get
  entry_left p pfx k v kind is_k = record {
    valid = (pfx, is_k);
    reads = λ j t is_j.
        leaf-strip p pfx [] k j t v (is_k ∙ sym (append-nil (p ++ pfx))) is_j
        ∙ reads-inner p pfx j t kind (some (k, v)) end (λ t'. if same [] t' then some v else none)
            is_j (λ t' is_j'. it_there j t');
  }
    where
      it_there :
          (j t' : List ℕ) → (if same [] t' then some v else none) ≡ get_rest (some (k, v)) end j t'
      it_there j [] = refl
      it_there j (b ∷ t') = refl

  child_leaf :
      (q e k : List ℕ) (b : ℕ) (v : V) (j t : List ℕ)
      → k ≡ q ++ (b ∷ e)
      → j ≡ q ++ t
      → (if same (b ∷ e) t then some v else none) ≡ get_rest none (kid b (leaf k v) end) j t
  unfolding add_child get
  child_leaf q e k b v j [] is_k is_j = refl
  child_leaf q e k b v j (d ∷ t) is_k is_j = sym (get_child-leaf end q b e k v d t j tt is_k is_j)

  child_inner :
      (b : ℕ) (q : List ℕ) (kind : Kind) (term : Option (List ℕ × V)) (kids : Kids V) (j t : List ℕ)
      → (strip (b ∷ q) t >>= λ r. get_rest term kids j r)
        ≡ get_rest none (kid b (inner kind q term kids) end) j t
  unfolding strip get
  child_inner b q kind term kids j [] = refl
  child_inner b q kind term kids j (c ∷ t) = elim (Bool-cases (b == c)) [
    | inl e ↦ rw e (sym (get-inner kind q term kids j t))
    | inr e ↦ rw e refl
  ]

  merge_with_child-Same :
      (p pfx : List ℕ) (b : ℕ) (n : Node V) (kind : Kind)
      → IsNode ((p ++ pfx) ++ (b ∷ [])) n
      → Same p (inner kind pfx none (kid b n end)) (some (merge_with_child pfx b n))
  unfolding IsNode merge_with_child
  merge_with_child-Same p pfx b (leaf k v) kind (e, is_k) =
      let path : k ≡ (p ++ pfx) ++ (b ∷ e) = is_k ∙ append_assoc (p ++ pfx) (b ∷ []) e in
      record {
        valid = (pfx ++ (b ∷ e), path ∙ append_assoc p pfx (b ∷ e));
        reads = λ j t is_j.
            leaf-strip p pfx (b ∷ e) k j t v path is_j
            ∙ reads-inner p pfx j t kind none (kid b (leaf k v) end)
                (λ t'. if same (b ∷ e) t' then some v else none) is_j
                (λ t' is_j'. child_leaf (p ++ pfx) e k b v j t' path is_j');
      }
  merge_with_child-Same p pfx b (inner kind' q term kids) kind (ends, good) =
      let path : ((p ++ pfx) ++ (b ∷ [])) ++ q ≡ p ++ (pfx ++ (b ∷ q)) =
        append_assoc (p ++ pfx) (b ∷ []) q ∙ append_assoc p pfx (b ∷ q) in
      record {
        valid = (subst (λ u. EndsAt u term) path ends, subst (λ u. AreKids u kids) path good);
        reads = λ j t is_j.
            get-inner kind' (pfx ++ (b ∷ q)) term kids j t
            ∙ (strip-concat pfx (b ∷ q) t (λ r. get_rest term kids j r)
                ∙ reads-inner p pfx j t kind none (kid b (inner kind' q term kids) end)
                    (λ r. strip (b ∷ q) r >>= λ r'. get_rest term kids j r') is_j
                    (λ t' is_j'. child_inner b q kind' term kids j t'));
      }

  shrink_after_delete4-Same :
      (p pfx : List ℕ) (kind : Kind) (term : Option (List ℕ × V)) (kids : Kids V)
      → IsNode p (inner kind pfx term kids)
      → Same p (inner kind pfx term kids) (shrink_after_delete4 pfx term kids)
  unfolding shrink_after_delete4 IsNode
  shrink_after_delete4-Same p pfx kind none end good = none_left p pfx kind
  shrink_after_delete4-Same p pfx kind (some (k, v)) end (is_k, good) =
      entry_left p pfx k v kind is_k
  shrink_after_delete4-Same p pfx kind none (kid b n end) (ends, good) =
      merge_with_child-Same p pfx b n kind good.0
  shrink_after_delete4-Same p pfx kind none (kid b n (kid c m l)) good =
      other_kind p pfx kind node4 none (kid b n (kid c m l)) good
  shrink_after_delete4-Same p pfx kind (some x) (kid b n l) good =
      other_kind p pfx kind node4 (some x) (kid b n l) good

  pub shrink-Same :
      (p pfx : List ℕ) (kind : Kind) (term : Option (List ℕ × V)) (kids : Kids V)
      → IsNode p (inner kind pfx term kids)
      → Same p (inner kind pfx term kids) (shrink kind pfx term kids)
  unfolding shrink
  shrink-Same p pfx node4 term kids good = shrink_after_delete4-Same p pfx node4 term kids good
  shrink-Same p pfx node16 term kids good =
      other_kind p pfx node16 (smaller node16 (count kids)) term kids good
  shrink-Same p pfx node48 term kids good =
      other_kind p pfx node48 (smaller node48 (count kids)) term kids good
  shrink-Same p pfx node256 term kids good =
      other_kind p pfx node256 (smaller node256 (count kids)) term kids good

  pub drop_term-Same :
      (p pfx : List ℕ) (kind : Kind) (kids : Kids V)
      → IsNode p (inner kind pfx none kids)
      → Same p (inner kind pfx none kids) (drop_term kind pfx kids)
  unfolding drop_term
  drop_term-Same p pfx node4 kids good = shrink_after_delete4-Same p pfx node4 none kids good
  drop_term-Same p pfx node16 kids good = other_kind p pfx node16 node16 none kids good
  drop_term-Same p pfx node48 kids good = other_kind p pfx node48 node48 none kids good
  drop_term-Same p pfx node256 kids good = other_kind p pfx node256 node256 none kids good
