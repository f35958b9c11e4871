-- ===== src/Art/Splits.antt =====
-- art/tree.go: what Get reads after `splitNode`.
use mathlib.Core.Path.{subst}
use mathlib.Core.List.{append_assoc, append-nil}
use yakutil.Base.{
  ℕ, suc, ◌+◌, ◌<◌, ◌≡◌, ◌≢◌, inl, inr, refl, sym, ◌∙◌, ap, Option, none, some, List, [], ◌∷◌, ◌++◌,
  arith, ◌==◌, Bool-cases, if◌then◌else◌, ◌>>=◌, length, length-append, drop, get_or,
  take-append_left,
}
use yakutil.Art.Keys.{
  same, strip, if-same-strip, strip-ext, strip-append, strip-concat, prefix_mismatch,
  prefix_mismatch-Forked, HeadsDiffer, drop-append_left,
}
use yakutil.Art.Tree.{
  Kind, node4, Node, leaf, inner, Kids, end, kid, get, add_child, fork_node, split_node,
}
use yakutil.Art.Paths.{IsNode, AreKids, EndsAt, get_rest, get-inner, AreKids-add_child}
use yakutil.Art.Forks.{Put, get_child-leaf, below-IsNode}

-- The parts of a prefix at its length `i` in common with the key.
drop-past : (m : List ℕ) (b : ℕ) (q : List ℕ) → drop (length m + 1) (m ++ (b ∷ q)) ≡ q
drop-past [] b q = refl
drop-past (x ∷ m) b q =
    let one : suc (length m) + 1 ≡ suc (length m + 1) = omega arith in rw one (drop-past m b q)

get_or-past : (m : List ℕ) (b : ℕ) (q : List ℕ) → get_or (m ++ (b ∷ q)) (length m) 0 ≡ b
get_or-past [] b q = refl
get_or-past (x ∷ m) b q = get_or-past m b q

module _ {V : Type 0} where
  module _ (kind : Kind) (term : Option (List ℕ × V)) (kids : Kids V) (b : ℕ) (q : List ℕ) where
    abbrev below : Node V
    below = inner kind q term kids

    -- The old node behind the byte at which it parts from the key.
    abbrev was : List ℕ → List ℕ → Option V
    was j t = strip (b ∷ q) t >>= λ r. get_rest term kids j r

    get-was :
        (m j t : List ℕ) → get (inner kind (m ++ (b ∷ q)) term kids) j t ≡ (strip m t >>= was j)
    get-was m j t =
        get-inner kind (m ++ (b ∷ q)) term kids j t
        ∙ strip-concat m (b ∷ q) t (λ r. get_rest term kids j r)

    key_ends :
        (key : List ℕ) (v : V) (j t : List ℕ)
        → get_rest (some (key, v)) (kid b below end) j t ≡ (if same [] t then some v else was j t)
    unfolding strip get
    key_ends key v j [] = refl
    key_ends key v j (c ∷ t) = elim (Bool-cases (b == c)) [
      | inl e ↦ rw e (get-inner kind q term kids j t)
      | inr e ↦ rw e refl
    ]

    key_goes_on :
        (u key : List ℕ) (v : V) (c : ℕ) (r j t : List ℕ)
        → key ≡ u ++ (c ∷ r)
        → b ≢ c
        → j ≡ u ++ t
        → get_rest none (add_child c (leaf key v) (kid b below end)) j t
          ≡ (if same (c ∷ r) t then some v else was j t)
    unfolding strip
    key_goes_on u key v c r j [] is_key apart is_j = refl
    key_goes_on u key v c r j (d ∷ t) is_key apart is_j =
        get_child-leaf (kid b below end) u c r key v d t j (apart, tt) is_key is_j
        ∙ ap (λ o. if same (c ∷ r) (d ∷ t) then some v else o) (key_ends key v j (d ∷ t))

    was-apart : (r j : List ℕ) → HeadsDiffer (b ∷ q) r → was j r ≡ none
    unfolding strip
    was-apart [] j apart = refl
    was-apart (c ∷ r) j apart = ground arith

    -- The path to what was behind the mismatch is the same, by way of the new node.
    same_path : (p m : List ℕ) → ((p ++ m) ++ (b ∷ [])) ++ q ≡ p ++ (m ++ (b ∷ q))
    same_path p m = append_assoc (p ++ m) (b ∷ []) q ∙ append_assoc p m (b ∷ q)

    below-valid :
        (p m : List ℕ)
        → IsNode p (inner kind (m ++ (b ∷ q)) term kids)
        → IsNode ((p ++ m) ++ (b ∷ [])) below
    unfolding IsNode
    below-valid p m (ends, kids_ok) = (
      subst (λ u. EndsAt u term) (sym (same_path p m)) ends,
      subst (λ u. AreKids u kids) (sym (same_path p m)) kids_ok,
    )

    -- The entries behind the new node, and the one added.
    over_node :
        (p m r j t : List ℕ) (v : V) (term' : Option (List ℕ × V)) (kids' : Kids V)
        → j ≡ p ++ t
        → ((t' : List ℕ)
            → j ≡ (p ++ m) ++ t'
            → get_rest term' kids' j t' ≡ (if same r t' then some v else was j t'))
        → get (inner node4 m term' kids') j t
          ≡ (if same (m ++ r) t then some v else get (inner kind (m ++ (b ∷ q)) term kids) j t)
    over_node p m r j t v term' kids' is_j each =
        get-inner node4 m term' kids' j t
        ∙ (strip-ext m t (λ t'. get_rest term' kids' j t')
              (λ t'. if same r t' then some v else was j t')
              (λ t' is_t. each t' (is_j ∙ (ap (λ x. p ++ x) is_t ∙ sym (append_assoc p m t'))))
            ∙ (sym (if-same-strip m r t (some v) (was j))
                ∙ ap (λ o. if same (m ++ r) t then some v else o) (sym (get-was m j t))))

    fork_node-Put :
        (p m r key : List ℕ) (v : V)
        → key ≡ (p ++ m) ++ r
        → HeadsDiffer (b ∷ q) r
        → IsNode p (inner kind (m ++ (b ∷ q)) term kids)
        → Put p
            (inner kind (m ++ (b ∷ q)) term kids)
            key
            (m ++ r)
            v
            (none, fork_node m (add_child b below end) key v r)
    unfolding fork_node IsNode add_child
    fork_node-Put p m [] key v is_key apart good = record {
      valid = (is_key ∙ append-nil (p ++ m), (below-valid p m good, tt, tt));
      old = sym (get-was m key (m ++ []) ∙ rw (strip-append m []) (was-apart [] key apart));
      gets = λ j t is_j.
          over_node p m [] j t v (some (key, v)) (kid b below end) is_j
            (λ t' is_t. key_ends key v j t');
    }
    fork_node-Put p m (c ∷ r) key v is_key apart good = record {
      valid = (
        tt,
        AreKids-add_child (p ++ m) (kid b below end) c (leaf key v) (apart, tt)
            (below-IsNode (p ++ m) c r key v is_key) (below-valid p m good, tt, tt),
      );
      old = sym (
          get-was m key (m ++ (c ∷ r)) ∙ rw (strip-append m (c ∷ r)) (was-apart (c ∷ r) key apart));
      gets = λ j t is_j.
          over_node p m (c ∷ r) j t v none (add_child c (leaf key v) (kid b below end)) is_j
            (λ t' is_t. key_goes_on (p ++ m) key v c r j t' is_key apart is_t);
    }

  split_node-forked :
      (p m a r key : List ℕ) (v : V) (kind : Kind) (term : Option (List ℕ × V)) (kids : Kids V)
      → key ≡ (p ++ m) ++ r
      → HeadsDiffer a r
      → length m < length (m ++ a)
      → IsNode p (inner kind (m ++ a) term kids)
      → Put p
          (inner kind (m ++ a) term kids)
          key
          (m ++ r)
          v
          (none, split_node kind (m ++ a) term kids key v (m ++ r) (length m))
  unfolding split_node
  split_node-forked p m [] r key v kind term kids is_key apart short good =
      absurd (omega (arith, length-append m []))
  split_node-forked p m (b ∷ q) r key v kind term kids is_key apart short good =
      rw (drop-past m b q, get_or-past m b q, take-append_left m (b ∷ q), drop-append_left m r)
        (fork_node-Put kind term kids b q p m r key v is_key apart good)

  pub split_node-Put :
      (p pfx s key : List ℕ) (v : V) (kind : Kind) (term : Option (List ℕ × V)) (kids : Kids V)
      → key ≡ p ++ s
      → prefix_mismatch pfx s < length pfx
      → IsNode p (inner kind pfx term kids)
      → Put p
          (inner kind pfx term kids)
          key
          s
          v
          (none, split_node kind pfx term kids key v s (prefix_mismatch pfx s))
  split_node-Put p pfx s key v kind term kids is_key short good =
      let f = prefix_mismatch-Forked pfx s in
      subst
        (λ u.
          Put p (inner kind pfx term kids) key u v
            (none, split_node kind pfx term kids key v u (prefix_mismatch pfx s)))
        (sym f.of_b)
        (subst
          (λ i.
            Put p (inner kind pfx term kids) key (f.common ++ f.after_b) v
              (none, split_node kind pfx term kids key v (f.common ++ f.after_b) i))
          (sym f.at)
          (subst
            (λ u.
              Put p (inner kind u term kids) key (f.common ++ f.after_b) v
                (none, split_node kind u term kids key v (f.common ++ f.after_b) (length f.common)))
            (sym f.of_a)
            (split_node-forked p f.common f.after_a f.after_b key v kind term kids
              (is_key ∙ (ap (λ x. p ++ x) f.of_b ∙ sym (append_assoc p f.common f.after_b))) f.apart
              (omega (arith, f.at, ap length f.of_a))
              (subst (λ u. IsNode p (inner kind u term kids)) f.of_a good))))
