-- ===== src/Art/Seeks.antt =====
-- art/tree.go: Seek walks over the entries with a larger key.
use mathlib.Core.List.{append_assoc}
use yakutil.Base.{
  ℕ, ◌≡◌, inl, inr, refl, sym, ◌∙◌, ap, Bool, true, false, Option, none, some, List, [], ◌∷◌, ◌++◌,
  arith, ltb, ◌==◌, ==_iff, Bool-cases, length, drop,
}
use yakutil.Art.Tree.{Kind, Node, leaf, inner, Kids, end, kid}
use yakutil.Art.Paths.{IsNode, AreKids}
use yakutil.Art.Walk.{
  and_on, visit, visit_greater, for_each, for_each_child, greater, Range, before, within, after,
  compare_prefix_range, seek, seek_children,
}
use yakutil.Art.Entries.{
  entries, kids_entries, term_entries, filter, walk, walk-filter-both, walk-whole,
  walk-whole_children, filter-nothing, and_on-done, filter-append, All, Under, entries-All,
  entries-All_inner,
}

pub greater-append : (p a b : List ℕ) → greater (p ++ a) (p ++ b) ≡ greater a b
unfolding greater
greater-append [] a b = refl
greater-append (x ∷ p) a b = ground (arith, greater-append p a b)

-- What the comparison of a node's prefix says of the keys behind it.
abbrev Says : Range → List ℕ → List ℕ → Type 0
Says before pfx rest = (e : List ℕ) → greater (pfx ++ e) rest ≡ false
Says within pfx rest = rest ≡ pfx ++ drop (length pfx) rest
Says after pfx rest = (e : List ℕ) → greater (pfx ++ e) rest ≡ true

Says-longer :
    (b c : ℕ) (pfx rest : List ℕ)
    → ltb b c ≡ false
    → ltb c b ≡ false
    → (range : Range) → Says range pfx rest
    → Says range (b ∷ pfx) (c ∷ rest)
unfolding greater
Says-longer b c pfx rest l m before h = λ e. rw (l, m) (h e)
Says-longer b c pfx rest l m within h =
    let is_c : c ≡ b = ground (arith, l, m) in rw is_c (ap (λ x. b ∷ x) h)
Says-longer b c pfx rest l m after h = λ e. rw (l, m) (h e)

compare_prefix_range-Says : (pfx rest : List ℕ) → Says (compare_prefix_range pfx rest) pfx rest
unfolding compare_prefix_range greater
compare_prefix_range-Says [] rest = refl
compare_prefix_range-Says (b ∷ pfx) [] = λ e. refl
compare_prefix_range-Says (b ∷ pfx) (c ∷ rest) = elim (Bool-cases (ltb b c)) [
  | inl less ↦ rw less (λ e. ground (arith, less))
  | inr l ↦ elim (Bool-cases (ltb c b)) [
    | inl more ↦ rw (l, more) (λ e. ground (arith, more))
    | inr m ↦
        rw (l, m)
          (Says-longer b c pfx rest l m (compare_prefix_range pfx rest)
            (compare_prefix_range-Says pfx rest))
  ]
]

module _ {V : Type 0} {S : Type 0} (fn : S → List ℕ → V → Bool × S) where
  visit_greater-walk :
      (term : Option (List ℕ × V)) (start : List ℕ) (s : S)
      → visit_greater fn term start s
        ≡ walk fn (filter (λ k. greater k start) (term_entries term)) s
  visit_greater-walk none start s = refl
  visit_greater-walk (some (k, v)) start s = elim (Bool-cases (greater k start)) [
    | inl e ↦ rw e (sym (and_on-done (fn s k v)))
    | inr e ↦ rw e refl
  ]

  -- A subtree that is skipped.
  pub skip :
      (test : List ℕ → Bool) (n : Node V) (l : List (List ℕ × V)) (p : List ℕ) (r : S → Bool × S)
      → All (Under p) (entries n)
      → ((e : List ℕ) → test (p ++ e) ≡ false)
      → ((s : S) → r s ≡ walk fn (filter test l) s)
      → (s : S) → r s ≡ walk fn (filter test (entries n ++ l)) s
  skip test n l p r good each later s =
      later s
      ∙ ap (λ x. walk fn x s)
          (sym (
            filter-append test (entries n) l
            ∙ ap (λ x. x ++ filter test l) (filter-nothing test n p good each)))

  seek_leaf :
      (k : List ℕ) (v : V) (start rest : List ℕ) (s : S)
      → seek fn (leaf k v) start rest s
        ≡ walk fn (filter (λ key. greater key start) (entries (leaf k v))) s
  unfolding seek entries
  seek_leaf k v start rest s = visit_greater-walk (some (k, v)) start s

  seek_inner :
      (kind : Kind) (pfx : List ℕ) (term : Option (List ℕ × V)) (kids : Kids V)
      (p start rest : List ℕ)
      → start ≡ p ++ rest
      → IsNode p (inner kind pfx term kids)
      → ((c : ℕ) (r : List ℕ) (s : S)
          → start ≡ (p ++ pfx) ++ (c ∷ r)
          → seek_children fn kids c start r s
            ≡ walk fn (filter (λ key. greater key start) (kids_entries kids)) s)
      → (s : S)
      → seek fn (inner kind pfx term kids) start rest s
        ≡ walk fn (filter (λ key. greater key start) (entries (inner kind pfx term kids))) s
  unfolding seek entries for_each IsNode greater
  seek_inner kind pfx term kids p start rest is_start good each s =
      go (compare_prefix_range pfx rest) (compare_prefix_range-Says pfx rest)
    where
      test : List ℕ → Bool
      test key = greater key start

      here : Node V
      here = inner kind pfx term kids

      whole : All (Under (p ++ pfx)) (entries here)
      whole = entries-All_inner kind p pfx term kids good

      at : (r : List ℕ) → rest ≡ pfx ++ r → start ≡ (p ++ pfx) ++ r
      at r h = is_start ∙ (ap (λ x. p ++ x) h ∙ sym (append_assoc p pfx r))

      inside :
          (r : List ℕ)
          → rest ≡ pfx ++ r
          → elim r as (λ x. Bool × S) [
            | [] ↦ and_on (visit_greater fn term start s) (λ s'. for_each_child fn kids s')
            | c ∷ r' ↦
                and_on (visit_greater fn term start s) (λ s'. seek_children fn kids c start r' s')
          ]
            ≡ walk fn (filter test (entries here)) s
      inside [] h =
          walk-filter-both fn test (term_entries term) (kids_entries kids)
            (visit_greater fn term start) (λ s'. for_each_child fn kids s')
            (visit_greater-walk term start)
            (walk-whole_children fn test kids (p ++ pfx) good.1 (λ b e.
              ap (greater ((p ++ pfx) ++ (b ∷ e))) (at [] h)
              ∙ greater-append (p ++ pfx) (b ∷ e) []))
            s
      inside (c ∷ r) h =
          walk-filter-both fn test (term_entries term) (kids_entries kids)
            (visit_greater fn term start) (λ s'. seek_children fn kids c start r s')
            (visit_greater-walk term start) (λ s'. each c r s' (at (c ∷ r) h)) s

      under : (e : List ℕ) → test ((p ++ pfx) ++ e) ≡ greater (pfx ++ e) rest
      under e = rw (is_start, append_assoc p pfx e) (greater-append p (pfx ++ e) rest)

      go :
          (range : Range)
          → Says range pfx rest
          → elim range as (λ x. Bool × S) [
            | after ↦ and_on (visit fn term s) (λ s'. for_each_child fn kids s')
            | before ↦ (true, s)
            | within ↦ elim (drop (length pfx) rest) [
              | [] ↦ and_on (visit_greater fn term start s) (λ s'. for_each_child fn kids s')
              | c ∷ r ↦
                  and_on (visit_greater fn term start s) (λ s'. seek_children fn kids c start r s')
            ]
          ]
            ≡ walk fn (filter test (entries (inner kind pfx term kids))) s
      go before h =
          ap (λ x. walk fn x s)
            (sym (filter-nothing test here (p ++ pfx) whole (λ e. under e ∙ h e)))
      go within h = inside (drop (length pfx) rest) h
      go after h = walk-whole fn test here (p ++ pfx) whole (λ e. under e ∙ h e) s

  seek_child :
      (b : ℕ) (n : Node V) (l : Kids V) (c : ℕ) (q start r : List ℕ)
      → start ≡ q ++ (c ∷ r)
      → AreKids q (kid b n l)
      → (start ≡ (q ++ (b ∷ [])) ++ r
          → (s : S)
          → seek fn n start r s ≡ walk fn (filter (λ key. greater key start) (entries n)) s)
      → ((s : S)
          → seek_children fn l c start r s
            ≡ walk fn (filter (λ key. greater key start) (kids_entries l)) s)
      → (s : S)
      → seek_children fn (kid b n l) c start r s
        ≡ walk fn (filter (λ key. greater key start) (kids_entries (kid b n l))) s
  unfolding seek entries IsNode greater
  seek_child b n l c q start r is_start (at, above, good) here later s =
      elim (Bool-cases (ltb b c)) [
        | inl less ↦ rw less (
            skip test n (kids_entries l) (q ++ (b ∷ [])) (λ s'. seek_children fn l c start r s')
              (entries-All n (q ++ (b ∷ [])) at) (λ e. below e ∙ ground (arith, less)) later s)
        | inr not_less ↦ elim (Bool-cases (b == c)) [
          | inl e ↦
              rw (not_less, e)
                (walk-filter-both fn test (entries n) (kids_entries l) (seek fn n start r)
                  (λ s'. seek_children fn l c start r s') (here (is_start ∙ path e)) later s)
          | inr other ↦
              rw (not_less, other)
                (walk-filter-both fn test (entries n) (kids_entries l) (for_each fn n)
                  (λ s'. seek_children fn l c start r s')
                  (walk-whole fn test n (q ++ (b ∷ [])) (entries-All n (q ++ (b ∷ [])) at)
                    (λ e. below e ∙ ground (arith, not_less, other)))
                  later s)
        ]
      ]
    where
      test : List ℕ → Bool
      test key = greater key start

      path : (b == c) ≡ true → q ++ (c ∷ r) ≡ (q ++ (b ∷ [])) ++ r
      path e = let is_c : b ≡ c = (==_iff b c).0 e in rw is_c (sym (append_assoc q (c ∷ []) r))

      below : (e : List ℕ) → test ((q ++ (b ∷ [])) ++ e) ≡ greater (b ∷ e) (c ∷ r)
      below e = rw (is_start, append_assoc q (b ∷ []) e) (greater-append q (b ∷ e) (c ∷ r))

  mutual
    unfolding seek entries IsNode

    pub seek-walk :
        (n : Node V) (p start rest : List ℕ)
        → start ≡ p ++ rest
        → IsNode p n
        → (s : S)
        → seek fn n start rest s ≡ walk fn (filter (λ key. greater key start) (entries n)) s
    seek-walk (leaf k v) p start rest is_start good s = seek_leaf k v start rest s
    seek-walk (inner kind pfx term kids) p start rest is_start good s =
        seek_inner kind pfx term kids p start rest is_start good
          (λ c r s' is_start'. seek_children-walk kids (p ++ pfx) c start r is_start' good.1 s') s

    seek_children-walk :
        (l : Kids V) (q : List ℕ) (c : ℕ) (start r : List ℕ)
        → start ≡ q ++ (c ∷ r)
        → AreKids q l
        → (s : S)
        → seek_children fn l c start r s
          ≡ walk fn (filter (λ key. greater key start) (kids_entries l)) s
    seek_children-walk end q c start r is_start good s = refl
    seek_children-walk (kid b n l) q c start r is_start good s =
        seek_child b n l c q start r is_start good
          (λ is_start'. seek-walk n (q ++ (b ∷ [])) start r is_start' good.0)
          (seek_children-walk l q c start r is_start good.2) s
