-- ===== src/Art/Scans.antt =====
-- art/tree.go: ScanPrefix walks over the entries with a key that begins so.
use mathlib.Core.List.{append_assoc, append-nil}
use yakutil.Base.{
  ℕ, ◌≡◌, ◌≢◌, inl, inr, refl, sym, ◌∙◌, ap, Bool, true, false, Option, none, some, List, [], ◌∷◌,
  ◌++◌, arith, ◌==◌, ==_iff, Bool-cases,
}
use yakutil.Art.Tree.{Kind, Node, leaf, inner, Kids, end, kid}
use yakutil.Art.Paths.{IsNode, AreKids, EndsAt, Absent}
use yakutil.Art.Walk.{
  and_on, visit, for_each, for_each_child, begins, Scan, all, nothing, on, scan_node_prefix,
  scan_prefix, scan_child,
}
use yakutil.Art.Entries.{
  entries, kids_entries, term_entries, filter, walk, walk-whole, filter-nothing, filter-append,
  and_on-done, All, Under, entries-All, entries-All_inner,
}
use yakutil.Art.Removals.{Above-Absent}
use yakutil.Art.Seeks.{skip}

begins-append : (p a b : List ℕ) → begins (p ++ a) (p ++ b) ≡ begins a b
unfolding begins
begins-append [] a b = refl
begins-append (x ∷ p) a b = ground (arith, begins-append p a b)

-- What the loop over a node's prefix says of the keys behind it.
abbrev Says : Scan → List ℕ → List ℕ → Type 0
Says all pfx rest = (e : List ℕ) → begins (pfx ++ e) rest ≡ true
Says nothing pfx rest = (e : List ℕ) → begins (pfx ++ e) rest ≡ false
Says (on c r) pfx rest = rest ≡ pfx ++ (c ∷ r)

Says-longer :
    (b c : ℕ) (pfx rest : List ℕ)
    → (b == c) ≡ true
    → (scan : Scan) → Says scan pfx rest
    → Says scan (b ∷ pfx) (c ∷ rest)
unfolding begins
Says-longer b c pfx rest e all h = λ x. rw e (h x)
Says-longer b c pfx rest e nothing h = λ x. rw e (h x)
Says-longer b c pfx rest e (on d r) h =
    let is_b : c ≡ b = sym ((==_iff b c).0 e) in rw is_b (ap (λ x. b ∷ x) h)

begins-nil : (k : List ℕ) → begins k [] ≡ true
unfolding begins
begins-nil [] = refl
begins-nil (b ∷ k) = refl

scan_node_prefix-Says : (pfx rest : List ℕ) → Says (scan_node_prefix pfx rest) pfx rest
unfolding scan_node_prefix begins
scan_node_prefix-Says [] [] = begins-nil
scan_node_prefix-Says [] (c ∷ r) = refl
scan_node_prefix-Says (b ∷ pfx) [] = λ e. refl
scan_node_prefix-Says (b ∷ pfx) (c ∷ rest) = elim (Bool-cases (b == c)) [
  | inl e ↦
      rw e (Says-longer b c pfx rest e (scan_node_prefix pfx rest) (scan_node_prefix-Says pfx rest))
  | inr other ↦ rw other (λ e. rw other refl)
]

module _ {V : Type 0} {S : Type 0} (fn : S → List ℕ → V → Bool × S) where
  scan_leaf :
      (k : List ℕ) (v : V) (prefix rest : List ℕ) (s : S)
      → scan_prefix fn (leaf k v) prefix rest s
        ≡ walk fn (filter (λ key. begins key prefix) (entries (leaf k v))) s
  unfolding scan_prefix entries
  scan_leaf k v prefix rest s = elim (Bool-cases (begins k prefix)) [
    | inl e ↦ rw e (sym (and_on-done (fn s k v)))
    | inr e ↦ rw e refl
  ]

  -- The entry that ends at a node is too short for a prefix that goes on.
  short_term :
      (q : List ℕ) (term : Option (List ℕ × V)) (c : ℕ) (r prefix : List ℕ)
      → EndsAt q term
      → prefix ≡ q ++ (c ∷ r)
      → filter (λ key. begins key prefix) (term_entries term) ≡ []
  unfolding begins
  short_term q none c r prefix ends is_prefix = refl
  short_term q (some (k, v)) c r prefix is_k is_prefix =
      let short : begins k prefix ≡ false =
        rw (is_k ∙ sym (append-nil q), is_prefix) (begins-append q [] (c ∷ r)) in
      rw short refl

  scan_inner :
      (kind : Kind) (pfx : List ℕ) (term : Option (List ℕ × V)) (kids : Kids V)
      (p prefix rest : List ℕ)
      → prefix ≡ p ++ rest
      → IsNode p (inner kind pfx term kids)
      → ((c : ℕ) (r : List ℕ) (s : S)
          → prefix ≡ (p ++ pfx) ++ (c ∷ r)
          → scan_child fn kids c prefix r s
            ≡ walk fn (filter (λ key. begins key prefix) (kids_entries kids)) s)
      → (s : S)
      → scan_prefix fn (inner kind pfx term kids) prefix rest s
        ≡ walk fn (filter (λ key. begins key prefix) (entries (inner kind pfx term kids))) s
  unfolding scan_prefix entries for_each IsNode
  scan_inner kind pfx term kids p prefix rest is_prefix good each s =
      go (scan_node_prefix pfx rest) (scan_node_prefix-Says pfx rest)
    where
      test : List ℕ → Bool
      test key = begins key prefix

      here : Node V
      here = inner kind pfx term kids

      whole : All (Under (p ++ pfx)) (entries here)
      whole = entries-All_inner kind p pfx term kids good

      under : (e : List ℕ) → test ((p ++ pfx) ++ e) ≡ begins (pfx ++ e) rest
      under e = rw (is_prefix, append_assoc p pfx e) (begins-append p (pfx ++ e) rest)

      at : (r : List ℕ) → rest ≡ pfx ++ r → prefix ≡ (p ++ pfx) ++ r
      at r h = is_prefix ∙ (ap (λ x. p ++ x) h ∙ sym (append_assoc p pfx r))

      go :
          (scan : Scan)
          → Says scan pfx rest
          → elim scan as (λ x. Bool × S) [
            | all ↦ and_on (visit fn term s) (λ s'. for_each_child fn kids s')
            | nothing ↦ (true, s)
            | on c r ↦ scan_child fn kids c prefix r s
          ]
            ≡ walk fn (filter test (entries here)) s
      go all h = walk-whole fn test here (p ++ pfx) whole (λ e. under e ∙ h e) s
      go nothing h =
          ap (λ x. walk fn x s)
            (sym (filter-nothing test here (p ++ pfx) whole (λ e. under e ∙ h e)))
      go (on c r) h =
          each c r s (at (c ∷ r) h)
          ∙ ap (λ x. walk fn x s)
              (sym (
                filter-append test (term_entries term) (kids_entries kids)
                ∙ ap (λ x. x ++ filter test (kids_entries kids))
                    (short_term (p ++ pfx) term c r prefix good.0 (at (c ∷ r) h))))

  below_other :
      (q : List ℕ) (b : ℕ) (c : ℕ) (prefix r : List ℕ)
      → b ≢ c
      → prefix ≡ q ++ (c ∷ r)
      → (e : List ℕ) → begins ((q ++ (b ∷ [])) ++ e) prefix ≡ false
  unfolding begins
  below_other q b c prefix r other is_prefix e =
      rw (is_prefix, append_assoc q (b ∷ []) e)
        (begins-append q (b ∷ e) (c ∷ r) ∙ ground (arith, other))

  no_child :
      (l : Kids V) (q : List ℕ) (c : ℕ) (prefix r : List ℕ)
      → prefix ≡ q ++ (c ∷ r)
      → AreKids q l
      → Absent c l
      → filter (λ key. begins key prefix) (kids_entries l) ≡ []
  unfolding entries IsNode
  no_child end q c prefix r is_prefix good absent = refl
  no_child (kid b n l) q c prefix r is_prefix (at, above, good) (other, absent) =
      filter-append (λ key. begins key prefix) (entries n) (kids_entries l)
      ∙ rw
          (
            filter-nothing (λ key. begins key prefix) n (q ++ (b ∷ []))
                (entries-All n (q ++ (b ∷ [])) at) (below_other q b c prefix r other is_prefix),
            no_child l q c prefix r is_prefix good absent,
          )
          refl

  scan_child_here :
      (b : ℕ) (n : Node V) (l : Kids V) (c : ℕ) (q prefix r : List ℕ)
      → prefix ≡ q ++ (c ∷ r)
      → AreKids q (kid b n l)
      → (prefix ≡ (q ++ (b ∷ [])) ++ r
          → (s : S)
          → scan_prefix fn n prefix r s ≡ walk fn (filter (λ key. begins key prefix) (entries n)) s)
      → ((s : S)
          → scan_child fn l c prefix r s
            ≡ walk fn (filter (λ key. begins key prefix) (kids_entries l)) s)
      → (s : S)
      → scan_child fn (kid b n l) c prefix r s
        ≡ walk fn (filter (λ key. begins key prefix) (kids_entries (kid b n l))) s
  unfolding scan_prefix entries IsNode
  scan_child_here b n l c q prefix r is_prefix (at, above, good) here later s =
      elim (Bool-cases (b == c)) [
        | inl e ↦
            let is_c : b ≡ c = (==_iff b c).0 e in
            let path : prefix ≡ (q ++ (b ∷ [])) ++ r =
              rw is_c (is_prefix ∙ sym (append_assoc q (c ∷ []) r)) in
            let only : filter (λ key. begins key prefix) (entries n ++ kids_entries l)
                ≡ filter (λ key. begins key prefix) (entries n) =
              filter-append (λ key. begins key prefix) (entries n) (kids_entries l)
              ∙ rw (no_child l q c prefix r is_prefix good (rw (← is_c) (Above-Absent b l above)))
                  (append-nil (filter (λ key. begins key prefix) (entries n))) in
            rw e (here path s ∙ ap (λ x. walk fn x s) (sym only))
        | inr other ↦ rw other (
            skip fn (λ key. begins key prefix) n (kids_entries l) (q ++ (b ∷ []))
              (λ s'. scan_child fn l c prefix r s') (entries-All n (q ++ (b ∷ [])) at)
              (below_other q b c prefix r (ground (arith, other)) is_prefix) later s)
      ]

  mutual
    unfolding scan_prefix entries IsNode

    pub scan_prefix-walk :
        (n : Node V) (p prefix rest : List ℕ)
        → prefix ≡ p ++ rest
        → IsNode p n
        → (s : S)
        → scan_prefix fn n prefix rest s ≡ walk fn (filter (λ key. begins key prefix) (entries n)) s
    scan_prefix-walk (leaf k v) p prefix rest is_prefix good s = scan_leaf k v prefix rest s
    scan_prefix-walk (inner kind pfx term kids) p prefix rest is_prefix good s =
        scan_inner kind pfx term kids p prefix rest is_prefix good
          (λ c r s' is_prefix'. scan_child-walk kids (p ++ pfx) c prefix r is_prefix' good.1 s') s

    scan_child-walk :
        (l : Kids V) (q : List ℕ) (c : ℕ) (prefix r : List ℕ)
        → prefix ≡ q ++ (c ∷ r)
        → AreKids q l
        → (s : S)
        → scan_child fn l c prefix r s
          ≡ walk fn (filter (λ key. begins key prefix) (kids_entries l)) s
    scan_child-walk end q c prefix r is_prefix good s = refl
    scan_child-walk (kid b n l) q c prefix r is_prefix good s =
        scan_child_here b n l c q prefix r is_prefix good
          (λ is_prefix'. scan_prefix-walk n (q ++ (b ∷ [])) prefix r is_prefix' good.0)
          (scan_child-walk l q c prefix r is_prefix good.2) s
