-- ===== src/Art/Deletes.antt =====
-- art/tree.go: what Get reads after `del` at a leaf and at an inner node.
use mathlib.Core.Path.{subst}
use mathlib.Core.List.{append_assoc}
use yakutil.Base.{
  ℕ, ◌≡◌, inl, inr, refl, sym, ◌∙◌, ap, false, Option, none, some, List, [], ◌∷◌, ◌++◌, arith,
  Bool-cases, if◌then◌else◌,
}
use yakutil.Art.Keys.{same, strip, same-eq, same_refl, strip-some}
use yakutil.Art.Tree.{
  Kind, Node, leaf, inner, Kids, Changed, gone, kept, get, get_child, after_child, drop_term,
  del_term, del_kids, del_leaf, del, del_child,
}
use yakutil.Art.Paths.{IsNode, AreKids, Above, get_rest, get-inner, get-leaf}
use yakutil.Art.Puts.{inner-gets, get-past, kids-gets}
use yakutil.Art.Shrinks.{get_at, IsNodeAt, Same, shrink-Same, drop_term-Same}

module _ {V : Type 0} where
  -- What `del` does at a node on the path `p`, for the rest `s` of the key.
  pub record Del (p : List ℕ) (n : Node V) (key s : List ℕ) (result : Option V × Option (Node V))
      : Type 0 where
    pub valid : IsNodeAt p result.1
    pub old : result.0 ≡ get n key s
    pub gets :
        (j t : List ℕ) → j ≡ p ++ t → get_at result.1 j t ≡ (if same s t then none else get n j t)

  unchanged :
      (p : List ℕ) (n : Node V) (key s : List ℕ)
      → key ≡ p ++ s
      → IsNode p n
      → get n key s ≡ none
      → Del p n key s (none, some n)
  unchanged p n key s is_key good absent = record {
    valid = good;
    old = sym absent;
    gets = λ j t is_j. elim (Bool-cases (same s t)) [
      | inl e ↦
          let here : s ≡ t = same-eq s t e in
          let key_too : j ≡ key = rw (is_j, is_key, here) refl in rw (e, key_too, ← here) absent
      | inr e ↦ rw e refl
    ];
  }

  -- A node without the entry, and another one in its place.
  replaced_by :
      (p : List ℕ) (n n' : Node V) (key s : List ℕ) (old : Option V) (o : Option (Node V))
      → Del p n key s (old, some n')
      → Same p n' o
      → Del p n key s (old, o)
  replaced_by p n n' key s old o d same_too = record {
    valid = same_too.valid;
    old = d.old;
    gets = λ j t is_j. same_too.reads j t is_j ∙ d.gets j t is_j;
  }

  pub del_leaf-Del :
      (p s k key : List ℕ) (v : V)
      → key ≡ p ++ s
      → IsNode p (leaf k v)
      → Del p (leaf k v) key s (del (leaf k v) key s)
  unfolding del del_leaf IsNode get
  del_leaf-Del p s k key v is_key (e, is_k) = elim (Bool-cases (same k key)) [
    | inl found ↦
        let here : k ≡ p ++ s = same-eq k key found ∙ is_key in
        rw found (record {
          valid = tt;
          old = sym (get-leaf p s s k key s v here is_key ∙ rw (same_refl s) refl);
          gets = λ j t is_j. ground (arith, get-leaf p s t k j t v here is_j);
        })
    | inr other ↦ rw other (unchanged p (leaf k v) key s is_key (e, is_k) (at_leaf other))
  ]
    where
      at_leaf : same k key ≡ false → get (leaf k v) key s ≡ none
      at_leaf other = rw other refl

  del_term-Del :
      (p pfx key : List ℕ) (kind : Kind) (term : Option (List ℕ × V)) (kids : Kids V)
      → key ≡ p ++ (pfx ++ [])
      → IsNode p (inner kind pfx term kids)
      → Del p (inner kind pfx term kids) key (pfx ++ []) (del_term kind pfx term kids)
  unfolding del_term IsNode
  del_term-Del p pfx key kind none kids is_key good =
      unchanged p (inner kind pfx none kids) key (pfx ++ []) is_key good
        (get-past kind pfx [] key none kids)
  del_term-Del p pfx key kind (some (k, old)) kids is_key (ends, good) =
      replaced_by p (inner kind pfx (some (k, old)) kids) (inner kind pfx none kids) key (pfx ++ [])
        (some old) (drop_term kind pfx kids)
        (record {
          valid = (tt, good);
          old = sym (get-past kind pfx [] key (some (k, old)) kids);
          gets = λ j t is_j.
              inner-gets kind kind p pfx [] j t none (some (k, old)) none kids kids is_j
                (λ t' is_j'. without k old j t');
        })
        (drop_term-Same p pfx kind kids (tt, good))
    where
      without :
          (k : List ℕ) (old : V) (j t' : List ℕ)
          → get_rest none kids j t'
            ≡ (if same [] t' then none else get_rest (some (k, old)) kids j t')
      without k old j [] = refl
      without k old j (b ∷ t') = refl

  -- The children after a change.
  abbrev pub kids_of : Changed V → Kids V
  kids_of (gone l) = l
  kids_of (kept l) = l

  -- `DelKids` is what `del_child` does to the children below the path `q`.
  abbrev pub DelKids : List ℕ → Kids V → ℕ → List ℕ → List ℕ → Option (V × Changed V) → Type 0
  DelKids q l c key r none = get_child l c key r ≡ none
  DelKids q l c key r (some (old, ch)) =
      AreKids q (kids_of ch)
      × ((a : ℕ) → Above a l → Above a (kids_of ch))
      × (some old ≡ get_child l c key r)
      × ((b : ℕ) (t j : List ℕ)
          → j ≡ q ++ (b ∷ t)
          → get_child (kids_of ch) b j t
            ≡ (if same (c ∷ r) (b ∷ t) then none else get_child l b j t))

  after_child-Same :
      (p pfx : List ℕ) (kind : Kind) (term : Option (List ℕ × V)) (ch : Changed V)
      → IsNode p (inner kind pfx term (kids_of ch))
      → Same p (inner kind pfx term (kids_of ch)) (after_child kind pfx term ch)
  unfolding after_child
  after_child-Same p pfx kind term (gone l) good = shrink-Same p pfx kind term l good
  after_child-Same p pfx kind term (kept l) good = record { valid = good; reads = λ j t is_j. refl }

  del_kids-Del :
      (p pfx key r : List ℕ) (c : ℕ) (kind : Kind) (term : Option (List ℕ × V)) (kids : Kids V)
      (result : Option (V × Changed V))
      → key ≡ p ++ (pfx ++ (c ∷ r))
      → IsNode p (inner kind pfx term kids)
      → DelKids (p ++ pfx) kids c key r result
      → Del p (inner kind pfx term kids) key (pfx ++ (c ∷ r)) (del_kids kind pfx term kids result)
  unfolding del_kids IsNode
  del_kids-Del p pfx key r c kind term kids none is_key good absent =
      unchanged p (inner kind pfx term kids) key (pfx ++ (c ∷ r)) is_key good
        (get-past kind pfx (c ∷ r) key term kids ∙ absent)
  del_kids-Del p pfx key r c kind term kids (some (old, ch)) is_key (ends, good)
        (good', up, is_old, gets) =
      replaced_by p (inner kind pfx term kids) (inner kind pfx term (kids_of ch)) key
        (pfx ++ (c ∷ r)) (some old) (after_child kind pfx term ch)
        (record {
          valid = (ends, good');
          old = is_old ∙ sym (get-past kind pfx (c ∷ r) key term kids);
          gets = λ j t is_j.
              inner-gets kind kind p pfx (c ∷ r) j t none term term kids (kids_of ch) is_j (
                kids-gets (p ++ pfx) c r none term kids (kids_of ch) j
                  (λ b t' is_j'. gets b t' j is_j'));
        })
        (after_child-Same p pfx kind term ch (ends, good'))

  prefixed-Del :
      (p pfx key r : List ℕ) (kind : Kind) (term : Option (List ℕ × V)) (kids : Kids V)
      → key ≡ p ++ (pfx ++ r)
      → IsNode p (inner kind pfx term kids)
      → ((c : ℕ) (r' : List ℕ)
          → key ≡ (p ++ pfx) ++ (c ∷ r')
          → DelKids (p ++ pfx) kids c key r' (del_child kids c key r'))
      → Del p (inner kind pfx term kids) key (pfx ++ r) (elim r [
        | [] ↦ del_term kind pfx term kids
        | c ∷ r' ↦ del_kids kind pfx term kids (del_child kids c key r')
      ])
  prefixed-Del p pfx key [] kind term kids is_key good each =
      del_term-Del p pfx key kind term kids is_key good
  prefixed-Del p pfx key (c ∷ r) kind term kids is_key good each =
      del_kids-Del p pfx key r c kind term kids (del_child kids c key r) is_key good
        (each c r (is_key ∙ sym (append_assoc p pfx (c ∷ r))))

  pub del_inner-Del :
      (p s key : List ℕ) (kind : Kind) (pfx : List ℕ) (term : Option (List ℕ × V)) (kids : Kids V)
      → key ≡ p ++ s
      → IsNode p (inner kind pfx term kids)
      → ((c : ℕ) (r : List ℕ)
          → key ≡ (p ++ pfx) ++ (c ∷ r)
          → DelKids (p ++ pfx) kids c key r (del_child kids c key r))
      → Del p (inner kind pfx term kids) key s (del (inner kind pfx term kids) key s)
  unfolding del
  del_inner-Del p s key kind pfx term kids is_key good each = go (strip pfx s) refl
    where
      past :
          (r : List ℕ)
          → s ≡ pfx ++ r
          → Del p (inner kind pfx term kids) key s (elim r as (λ x. Option V × Option (Node V)) [
            | [] ↦ del_term kind pfx term kids
            | c ∷ r' ↦ del_kids kind pfx term kids (del_child kids c key r')
          ])
      past r is_s =
          subst
            (λ u.
              Del p (inner kind pfx term kids) key u (elim r as (λ x. Option V × Option (Node V)) [
                | [] ↦ del_term kind pfx term kids
                | c ∷ r' ↦ del_kids kind pfx term kids (del_child kids c key r')
              ]))
            (sym is_s)
            (prefixed-Del p pfx key r kind term kids (is_key ∙ ap (λ x. p ++ x) is_s) good each)

      go :
          (o : Option (List ℕ))
          → strip pfx s ≡ o
          → Del p (inner kind pfx term kids) key s (elim o as (λ x. Option V × Option (Node V)) [
            | none ↦ (none, some (inner kind pfx term kids))
            | some [] ↦ del_term kind pfx term kids
            | some (c ∷ r) ↦ del_kids kind pfx term kids (del_child kids c key r)
          ])
      go none off =
          unchanged p (inner kind pfx term kids) key s is_key good
            (get-inner kind pfx term kids key s ∙ rw off refl)
      go (some []) on = past [] (strip-some pfx s on)
      go (some (c ∷ r)) on = past (c ∷ r) (strip-some pfx s on)
