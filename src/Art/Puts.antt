-- ===== src/Art/Puts.antt =====
-- art/tree.go: what Get reads after `put` at a leaf and at an inner node.
use mathlib.Core.Path.{subst}
use mathlib.Core.List.{append_assoc, append-nil}
use yakutil.Base.{
  ℕ, ◌≡◌, inl, inr, refl, sym, ◌∙◌, ap, false, Option, none, some, List, [], ◌∷◌, ◌++◌, arith, ltb,
  ◌==◌, Bool-cases, if◌then◌else◌, length, drop,
}
use yakutil.Art.Keys.{
  same, same-eq, same_refl, if-same-strip, strip-ext, strip-append, prefix_mismatch,
  drop-append_left,
}
use yakutil.Art.Tree.{
  Kind, leaf, inner, Kids, get, get_child, add_child, count, capacity, larger, add_grown, put_term,
  put_kids, put_leaf, put, put_child,
}
use yakutil.Art.Paths.{
  IsNode, AreKids, Above, Absent, get_rest, get-inner, get-leaf, AreKids-add_child,
  get_child-Absent,
}
use yakutil.Art.Forks.{Put, get_child-leaf, below-IsNode, split_leaf-Put}
use yakutil.Art.Splits.{split_node-Put}

-- A key without a mismatch begins with the prefix.
past-prefix :
    (pfx s : List ℕ)
    → ltb (prefix_mismatch pfx s) (length pfx) ≡ false
    → (r : List ℕ) × (s ≡ pfx ++ r)
unfolding prefix_mismatch
past-prefix [] s h = (s, refl)
past-prefix (b ∷ pfx) [] h = ground (arith, h)
past-prefix (b ∷ pfx) (c ∷ s) h = elim (Bool-cases (b == c)) [
  | inl e ↦ let (r, is_s) = past-prefix pfx s (ground (arith, h, e)) in (r, ground (arith, is_s, e))
  | inr n ↦ ground (arith, h, n)
]

module _ {V : Type 0} where
  -- `PutKids` is what `put_child` does to the children below the path `q`.
  abbrev pub PutKids :
      List ℕ → Kids V → ℕ → List ℕ → List ℕ → V → Option (Option V × Kids V) → Type 0
  PutKids q l c key r v none = Absent c l
  PutKids q l c key r v (some (old, l')) =
      AreKids q l'
      × ((a : ℕ) → Above a l → Above a l')
      × (old ≡ get_child l c key r)
      × ((b : ℕ) (t j : List ℕ)
          → j ≡ q ++ (b ∷ t)
          → get_child l' b j t ≡ (if same (c ∷ r) (b ∷ t) then some v else get_child l b j t))

  -- An entry changed behind the prefix of a node.
  pub inner-gets :
      (kind kind' : Kind) (p pfx r j t : List ℕ) (o : Option V) (term term' : Option (List ℕ × V))
      (kids kids' : Kids V)
      → j ≡ p ++ t
      → ((t' : List ℕ)
          → j ≡ (p ++ pfx) ++ t'
          → get_rest term' kids' j t' ≡ (if same r t' then o else get_rest term kids j t'))
      → get (inner kind' pfx term' kids') j t
        ≡ (if same (pfx ++ r) t then o else get (inner kind pfx term kids) j t)
  inner-gets kind kind' p pfx r j t o term term' kids kids' is_j each =
      get-inner kind' pfx term' kids' j t
      ∙ (strip-ext pfx t (λ t'. get_rest term' kids' j t')
            (λ t'. if same r t' then o else get_rest term kids j t')
            (λ t' is_t. each t' (is_j ∙ (ap (λ x. p ++ x) is_t ∙ sym (append_assoc p pfx t'))))
          ∙ (sym (if-same-strip pfx r t o (get_rest term kids j))
              ∙ ap (λ x. if same (pfx ++ r) t then o else x)
                  (sym (get-inner kind pfx term kids j t))))

  pub get-past :
      (kind : Kind) (pfx r key : List ℕ) (term : Option (List ℕ × V)) (kids : Kids V)
      → get (inner kind pfx term kids) key (pfx ++ r) ≡ get_rest term kids key r
  get-past kind pfx r key term kids =
      get-inner kind pfx term kids key (pfx ++ r) ∙ rw (strip-append pfx r) refl

  term-gets :
      (key : List ℕ) (v : V) (term : Option (List ℕ × V)) (kids : Kids V) (j t : List ℕ)
      → get_rest (some (key, v)) kids j t ≡ (if same [] t then some v else get_rest term kids j t)
  term-gets key v term kids j [] = refl
  term-gets key v term kids j (b ∷ t) = refl

  pub kids-gets :
      (q : List ℕ) (c : ℕ) (r : List ℕ) (o : Option V) (term : Option (List ℕ × V))
      (kids kids' : Kids V) (j : List ℕ)
      → ((b : ℕ) (t : List ℕ)
          → j ≡ q ++ (b ∷ t)
          → get_child kids' b j t ≡ (if same (c ∷ r) (b ∷ t) then o else get_child kids b j t))
      → (t : List ℕ) → j ≡ q ++ t
      → get_rest term kids' j t ≡ (if same (c ∷ r) t then o else get_rest term kids j t)
  kids-gets q c r o term kids kids' j each [] is_j = refl
  kids-gets q c r o term kids kids' j each (b ∷ t) is_j = each b t is_j

  put_term-Put :
      (p pfx key : List ℕ) (v : V) (kind : Kind) (term : Option (List ℕ × V)) (kids : Kids V)
      → key ≡ p ++ (pfx ++ [])
      → IsNode p (inner kind pfx term kids)
      → Put p (inner kind pfx term kids) key (pfx ++ []) v (put_term kind pfx term kids key v)
  unfolding put_term IsNode
  put_term-Put p pfx key v kind none kids is_key (ends, good) = record {
    valid = (is_key ∙ ap (λ x. p ++ x) (append-nil pfx), good);
    old = sym (get-past kind pfx [] key none kids);
    gets = λ j t is_j.
        inner-gets kind kind p pfx [] j t (some v) none (some (key, v)) kids kids is_j
          (λ t' is_t. term-gets key v none kids j t');
  }
  put_term-Put p pfx key v kind (some (k, old)) kids is_key (ends, good) = record {
    valid = (ends, good);
    old = sym (get-past kind pfx [] key (some (k, old)) kids);
    gets = λ j t is_j.
        inner-gets kind kind p pfx [] j t (some v) (some (k, old)) (some (k, v)) kids kids is_j
          (λ t' is_t. term-gets k v (some (k, old)) kids j t');
  }

  put_kids-Put :
      (p pfx key r : List ℕ) (v : V) (c : ℕ) (kind : Kind) (term : Option (List ℕ × V))
      (kids : Kids V) (result : Option (Option V × Kids V))
      → key ≡ p ++ (pfx ++ (c ∷ r))
      → IsNode p (inner kind pfx term kids)
      → PutKids (p ++ pfx) kids c key r v result
      → Put p
          (inner kind pfx term kids)
          key
          (pfx ++ (c ∷ r))
          v
          (put_kids kind pfx term kids key v c result)
  unfolding put_kids IsNode add_grown
  put_kids-Put p pfx key r v c kind term kids none is_key (ends, good) absent =
      let split : key ≡ (p ++ pfx) ++ (c ∷ r) = is_key ∙ sym (append_assoc p pfx (c ∷ r)) in
      record {
        valid = (
          ends,
          AreKids-add_child (p ++ pfx) kids c (leaf key v) absent
              (below-IsNode (p ++ pfx) c r key v split) good,
        );
        old = sym (get-past kind pfx (c ∷ r) key term kids ∙ get_child-Absent kids c key r absent);
        gets = λ j t is_j.
            inner-gets kind (if ltb (count kids) (capacity kind) then kind else larger kind) p pfx
              (c ∷ r) j t (some v) term term kids (add_child c (leaf key v) kids) is_j
              (kids-gets (p ++ pfx) c r (some v) term kids (add_child c (leaf key v) kids) j
                (λ b t' is_j'. get_child-leaf kids (p ++ pfx) c r key v b t' j absent split is_j'));
      }
  put_kids-Put p pfx key r v c kind term kids (some (old, kids')) is_key (ends, good)
        (good', up, is_old, gets) =
      record {
        valid = (ends, good');
        old = is_old ∙ sym (get-past kind pfx (c ∷ r) key term kids);
        gets = λ j t is_j.
            inner-gets kind kind p pfx (c ∷ r) j t (some v) term term kids kids' is_j (
              kids-gets (p ++ pfx) c r (some v) term kids kids' j
                (λ b t' is_j'. gets b t' j is_j'));
      }

  pub put_leaf-Put :
      (p s k key : List ℕ) (old v : V)
      → key ≡ p ++ s
      → IsNode p (leaf k old)
      → Put p (leaf k old) key s v (put (leaf k old) key v s)
  unfolding put put_leaf IsNode
  put_leaf-Put p s k key old v is_key (e, is_k) = elim (Bool-cases (same k key)) [
    | inl found ↦
        let here : k ≡ p ++ s = same-eq k key found ∙ is_key in
        rw found (record {
          valid = (e, is_k);
          old = sym (get-leaf p s s k key s old here is_key ∙ rw (same_refl s) refl);
          gets = λ j t is_j.
              ground (arith, get-leaf p s t k j t v here is_j, get-leaf p s t k j t old here is_j);
        })
    | inr other ↦ rw other (split_leaf-Put p e s k key old v is_k is_key)
  ]

  prefixed-Put :
      (p pfx key r : List ℕ) (v : V) (kind : Kind) (term : Option (List ℕ × V)) (kids : Kids V)
      → key ≡ p ++ (pfx ++ r)
      → IsNode p (inner kind pfx term kids)
      → ((c : ℕ) (r' : List ℕ)
          → key ≡ (p ++ pfx) ++ (c ∷ r')
          → PutKids (p ++ pfx) kids c key r' v (put_child kids c key v r'))
      → Put p (inner kind pfx term kids) key (pfx ++ r) v (elim r [
        | [] ↦ put_term kind pfx term kids key v
        | c ∷ r' ↦ put_kids kind pfx term kids key v c (put_child kids c key v r')
      ])
  prefixed-Put p pfx key [] v kind term kids is_key good each =
      put_term-Put p pfx key v kind term kids is_key good
  prefixed-Put p pfx key (c ∷ r) v kind term kids is_key good each =
      put_kids-Put p pfx key r v c kind term kids (put_child kids c key v r) is_key good
        (each c r (is_key ∙ sym (append_assoc p pfx (c ∷ r))))

  pub put_inner-Put :
      (p s key : List ℕ) (v : V) (kind : Kind) (pfx : List ℕ) (term : Option (List ℕ × V))
      (kids : Kids V)
      → key ≡ p ++ s
      → IsNode p (inner kind pfx term kids)
      → ((c : ℕ) (r : List ℕ)
          → key ≡ (p ++ pfx) ++ (c ∷ r)
          → PutKids (p ++ pfx) kids c key r v (put_child kids c key v r))
      → Put p (inner kind pfx term kids) key s v (put (inner kind pfx term kids) key v s)
  unfolding put
  put_inner-Put p s key v kind pfx term kids is_key good each =
      elim (Bool-cases (ltb (prefix_mismatch pfx s) (length pfx))) [
        | inl short ↦
            rw short
              (split_node-Put p pfx s key v kind term kids is_key (ground (arith, short)) good)
        | inr long ↦
            let (r, is_s) = past-prefix pfx s long in
            let rest : drop (length pfx) s ≡ r =
              ap (drop (length pfx)) is_s ∙ drop-append_left pfx r in
            rw (long, rest)
              (subst
                (λ u. Put p (inner kind pfx term kids) key u v (elim r [
                  | [] ↦ put_term kind pfx term kids key v
                  | c ∷ r' ↦ put_kids kind pfx term kids key v c (put_child kids c key v r')
                ]))
                (sym is_s)
                (prefixed-Put p pfx key r v kind term kids (is_key ∙ ap (λ x. p ++ x) is_s) good
                  each))
      ]
