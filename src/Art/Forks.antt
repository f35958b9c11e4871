-- ===== src/Art/Forks.antt =====
-- art/tree.go: what Get reads after `splitLeaf` and `splitNode`.
use mathlib.Core.Path.{subst}
use mathlib.Core.List.{append_assoc, append-nil}
use yakutil.Base.{
  ℕ, ◌-◌, ◌≡◌, ◌≢◌, inl, inr, refl, sym, ◌∙◌, ap, Option, none, some, List, [], ◌∷◌, ◌++◌, arith,
  Option-cases, if◌then◌else◌, ◌>>=◌, length, length-append, take, drop, take-append_left,
}
use yakutil.Art.Keys.{
  same, strip, if-same-strip, strip-ext, prefix_mismatch, prefix_mismatch-Forked, HeadsDiffer,
  drop-append_left,
}
use yakutil.Art.Tree.{
  Kind, node4, Node, leaf, inner, Kids, end, kid, get, get_child, add_child, fork_leaf, split_leaf,
}
use yakutil.Art.Paths.{
  IsNode, Absent, get_rest, get-inner, get-leaf, get_child-add_child, get_child-Absent,
  AreKids-add_child,
}

module _ {V : Type 0} where
  -- What `put` does at a node on the path `p`, for the rest `s` of the key.
  pub record Put (p : List ℕ) (n : Node V) (key s : List ℕ) (v : V) (result : Option V × Node V)
      : Type 0 where
    pub valid : IsNode p result.1
    pub old : result.0 ≡ get n key s
    pub gets :
        (j t : List ℕ) → j ≡ p ++ t → get result.1 j t ≡ (if same s t then some v else get n j t)

  -- A leaf among the children is found by its own key.
  pub get_child-leaf :
      (l : Kids V) (q : List ℕ) (c : ℕ) (a k : List ℕ) (v : V) (b : ℕ) (t j : List ℕ)
      → Absent c l
      → k ≡ q ++ (c ∷ a)
      → j ≡ q ++ (b ∷ t)
      → get_child (add_child c (leaf k v) l) b j t
        ≡ (if same (c ∷ a) (b ∷ t) then some v else get_child l b j t)
  get_child-leaf l q c a k v b t j none_yet is_k is_j = ground (
    arith,
    get_child-add_child l c (leaf k v) b j t,
    get-leaf q (c ∷ a) (b ∷ t) k j t v,
    get_child-Absent l c j t,
  )

  abbrev pub nothing : List ℕ → Option V
  nothing r = none

  pub strip-nothing : (m t : List ℕ) → (strip m t >>= nothing) ≡ none
  strip-nothing m t = elim (Option-cases (strip m t)) [
    | inl off ↦ rw off refl
    | inr (r, on) ↦ rw on refl
  ]

  pub leaf-strip :
      (p m e k j t : List ℕ) (v : V)
      → k ≡ (p ++ m) ++ e
      → j ≡ p ++ t
      → get (leaf k v) j t ≡ (strip m t >>= λ t'. if same e t' then some v else none)
  leaf-strip p m e k j t v is_k is_j =
      get-leaf p (m ++ e) t k j t v (is_k ∙ append_assoc p m e) is_j
      ∙ (ap (λ o. if same (m ++ e) t then some v else o) (sym (strip-nothing m t))
          ∙ if-same-strip m e t (some v) nothing)

  -- A node that takes the place of a leaf, with an entry more.
  over_leaf :
      (p m e r k j t : List ℕ) (old v : V) (kind : Kind) (term : Option (List ℕ × V))
      (kids : Kids V)
      → k ≡ (p ++ m) ++ e
      → j ≡ p ++ t
      → ((t' : List ℕ)
          → j ≡ (p ++ m) ++ t'
          → get_rest term kids j t'
            ≡ (if same r t' then some v else if same e t' then some old else none))
      → get (inner kind m term kids) j t
        ≡ (if same (m ++ r) t then some v else get (leaf k old) j t)
  over_leaf p m e r k j t old v kind term kids is_k is_j each =
      let f : List ℕ → Option V = λ t'. if same e t' then some old else none in
      get-inner kind m term kids j t
      ∙ (strip-ext m t (λ t'. get_rest term kids j t') (λ t'. if same r t' then some v else f t')
            (λ t' is_t. each t' (is_j ∙ (ap (λ x. p ++ x) is_t ∙ sym (append_assoc p m t'))))
          ∙ (sym (if-same-strip m r t (some v) f)
              ∙ ap (λ o. if same (m ++ r) t then some v else o)
                  (sym (leaf-strip p m e k j t old is_k is_j))))

  -- The three ways in which the keys go on behind `q`.
  module _ (q k key j : List ℕ) (old v : V) where
    old_longer :
        (x : ℕ) (e t : List ℕ)
        → k ≡ q ++ (x ∷ e)
        → j ≡ q ++ t
        → get_rest (some (key, v)) (add_child x (leaf k old) end) j t
          ≡ (if same [] t then some v else if same (x ∷ e) t then some old else none)
    unfolding get
    old_longer x e [] is_k is_j = refl
    old_longer x e (b ∷ t) is_k is_j = get_child-leaf end q x e k old b t j tt is_k is_j

    new_longer :
        (c : ℕ) (r t : List ℕ)
        → key ≡ q ++ (c ∷ r)
        → j ≡ q ++ t
        → get_rest (some (k, old)) (add_child c (leaf key v) end) j t
          ≡ (if same (c ∷ r) t then some v else if same [] t then some old else none)
    unfolding get
    new_longer c r [] is_key is_j = refl
    new_longer c r (b ∷ t) is_key is_j = get_child-leaf end q c r key v b t j tt is_key is_j

    both_longer :
        (x : ℕ) (e : List ℕ) (c : ℕ) (r t : List ℕ)
        → k ≡ q ++ (x ∷ e)
        → key ≡ q ++ (c ∷ r)
        → x ≢ c
        → j ≡ q ++ t
        → get_rest none (add_child c (leaf key v) (add_child x (leaf k old) end)) j t
          ≡ (if same (c ∷ r) t then some v else if same (x ∷ e) t then some old else none)
    unfolding get add_child
    both_longer x e c r [] is_k is_key apart is_j = refl
    both_longer x e c r (b ∷ t) is_k is_key apart is_j =
        get_child-leaf (kid x (leaf k old) end) q c r key v b t j (apart, tt) is_key is_j
        ∙ ap (λ o. if same (c ∷ r) (b ∷ t) then some v else o)
            (get_child-leaf end q x e k old b t j tt is_k is_j)

  -- A leaf below the byte that its key goes on with.
  pub below-IsNode :
      (q : List ℕ) (x : ℕ) (e k : List ℕ) (v : V)
      → k ≡ q ++ (x ∷ e)
      → IsNode (q ++ (x ∷ [])) (leaf k v)
  unfolding IsNode
  below-IsNode q x e k v is_k = (e, is_k ∙ sym (append_assoc q (x ∷ []) e))

  fork_leaf-Put :
      (p m e r k key : List ℕ) (old v : V)
      → k ≡ (p ++ m) ++ e
      → key ≡ (p ++ m) ++ r
      → HeadsDiffer e r
      → Put p (leaf k old) key (m ++ r) v (fork_leaf k old key v m e r)
  unfolding fork_leaf IsNode add_child
  fork_leaf-Put p m [] [] k key old v is_k is_key apart = record {
    valid = (m ++ [], is_k ∙ append_assoc p m []);
    old = sym (get-leaf (p ++ m) [] [] k key (m ++ []) old is_k is_key);
    gets = λ j t is_j. ground (
      arith,
      get-leaf p (m ++ []) t k j t v (is_k ∙ append_assoc p m []) is_j,
      get-leaf p (m ++ []) t k j t old (is_k ∙ append_assoc p m []) is_j,
    );
  }
  fork_leaf-Put p m (x ∷ e) [] k key old v is_k is_key apart = record {
    valid = (
      is_key ∙ append-nil (p ++ m),
      AreKids-add_child (p ++ m) end x (leaf k old) tt (below-IsNode (p ++ m) x e k old is_k) tt,
    );
    old = sym (get-leaf (p ++ m) (x ∷ e) [] k key (m ++ []) old is_k is_key);
    gets = λ j t is_j.
        over_leaf p m (x ∷ e) [] k j t old v node4 (some (key, v)) (add_child x (leaf k old) end)
          is_k is_j (λ t'. old_longer (p ++ m) k key j old v x e t' is_k);
  }
  fork_leaf-Put p m [] (c ∷ r) k key old v is_k is_key apart = record {
    valid = (
      is_k ∙ append-nil (p ++ m),
      AreKids-add_child (p ++ m) end c (leaf key v) tt (below-IsNode (p ++ m) c r key v is_key) tt,
    );
    old = sym (get-leaf (p ++ m) [] (c ∷ r) k key (m ++ (c ∷ r)) old is_k is_key);
    gets = λ j t is_j.
        over_leaf p m [] (c ∷ r) k j t old v node4 (some (k, old)) (add_child c (leaf key v) end)
          is_k is_j (λ t'. new_longer (p ++ m) k key j old v c r t' is_key);
  }
  fork_leaf-Put p m (x ∷ e) (c ∷ r) k key old v is_k is_key apart = record {
    valid = (
      tt,
      AreKids-add_child (p ++ m) (kid x (leaf k old) end) c (leaf key v) (apart, tt)
          (below-IsNode (p ++ m) c r key v is_key) (below-IsNode (p ++ m) x e k old is_k, tt, tt),
    );
    old =
        sym (get-leaf (p ++ m) (x ∷ e) (c ∷ r) k key (m ++ (c ∷ r)) old is_k is_key ∙ ground arith);
    gets = λ j t is_j.
        over_leaf p m (x ∷ e) (c ∷ r) k j t old v node4 none
          (add_child c (leaf key v) (add_child x (leaf k old) end)) is_k is_j
          (λ t'. both_longer (p ++ m) k key j old v x e c r t' is_k is_key apart);
  }

  pub split_leaf-Put :
      (p e s k key : List ℕ) (old v : V)
      → k ≡ p ++ e
      → key ≡ p ++ s
      → Put p (leaf k old) key s v (split_leaf k old key v s)
  unfolding split_leaf
  split_leaf-Put p e s k key old v is_k is_key =
      let f = prefix_mismatch-Forked e s in
      let depth : length key - length s ≡ length p =
        omega (arith, ap length is_key, length-append p s) in
      let rest : drop (length p) k ≡ e = ap (drop (length p)) is_k ∙ drop-append_left p e in
      let front : take (prefix_mismatch e s) e ≡ f.common =
        rw f.at (ap (take (length f.common)) f.of_a ∙ take-append_left f.common f.after_a) in
      let back : drop (prefix_mismatch e s) e ≡ f.after_a =
        rw f.at (ap (drop (length f.common)) f.of_a ∙ drop-append_left f.common f.after_a) in
      let new : drop (prefix_mismatch e s) s ≡ f.after_b =
        rw f.at (ap (drop (length f.common)) f.of_b ∙ drop-append_left f.common f.after_b) in
      rw (depth, rest, front, back, new)
        (subst
          (λ u. Put p (leaf k old) key u v (fork_leaf k old key v f.common f.after_a f.after_b))
          (sym f.of_b)
          (fork_leaf-Put p f.common f.after_a f.after_b k key old v
            (is_k ∙ (ap (λ x. p ++ x) f.of_a ∙ sym (append_assoc p f.common f.after_a)))
            (is_key ∙ (ap (λ x. p ++ x) f.of_b ∙ sym (append_assoc p f.common f.after_b))) f.apart))
