-- ===== src/Topn/Firsts.antt =====
-- topn/topn.go: TopN and ByKey return the items that come first, in order, by either of the two ways.
use mathlib.Core.Nat as Unary
use mathlib.Core.Path.{fun_ext, subst}
use mathlib.Core.List as Lists
use mathlib.Core.List.Perm
use mathlib.Core.List.{Perm}
use yakutil.Base.{
  ℕ, zero, suc, ◌/◌, ◌≤◌, ◌≡◌, refl, sym, ◌∙◌, ap, Bool, true, false, some, List, [], ◌∷◌, ◌++◌,
  arith, length, take, drop, min, length-take, ltb, ltb→lt, ◌==◌, Bool-cases, inl, inr, ◌>>=◌,
  take-append_left, ◌||◌,
}
use yakutil.Base.Int.{ℤ, pos, negsuc}
use yakutil.Topn.Select.{compare_by, select, top_within, top_n, by_key}
use yakutil.Topn.Orders.{take-append-drop, IsStrictWeak, Ordered, Ahead, take-Ordered, take-Ahead}
use yakutil.Topn.Rounds.{select-Chosen}

abbrev pub negative : ℤ → Bool
negative (pos n) = false
negative (negsuc n) = true

-- A comparison as a test of which comes first.
abbrev pub below : {A : Type 0} → (A → A → ℤ) → A → A → Bool
below cmp a b = negative (cmp a b)

abbrev to_native : Unary.ℕ → ℕ
to_native Unary.zero = zero
to_native (Unary.suc n) = suc (to_native n)

module _ {A : Type 0} where
  length-native : (l : List A) → length l ≡ to_native (Lists.length l)
  length-native [] = refl
  length-native (x ∷ l) = ap suc (length-native l)

  pub length-perm : (l m : List A) → Perm l m → length l ≡ length m
  length-perm l m p = length-native l ∙ (ap to_native (Perm.length-eq p) ∙ sym (length-native m))

  -- What package slices says of SortFunc: the items of the slice in the order of the comparison, if
  -- that is a strict weak one.
  pub record IsSort (sort_func : (A → A → ℤ) → List A → List A) : Type 0 where
    pub same : (cmp : A → A → ℤ) (l : List A) → Perm (sort_func cmp l) l
    pub ordered :
        (cmp : A → A → ℤ) (l : List A)
        → IsStrictWeak (below cmp)
        → Ordered (below cmp) (sort_func cmp l)

  -- The first `n` items of a slice, in order; `others` are what is left.
  pub record IsTop (less : A → A → Bool) (n : ℕ) (src result : List A) : Type 0 where
    pub others : List A
    pub same : Perm (result ++ others) src
    pub size : length result ≡ min n (length src)
    pub ordered : Ordered less result
    pub ahead : Ahead less result others

  module _ (sort_func : (A → A → ℤ) → List A → List A) (sorts : IsSort sort_func)
      (less : A → A → Bool) (order : IsStrictWeak less) where
    below-compare_by : (a b : A) → below (compare_by less) a b ≡ less a b
    unfolding compare_by
    below-compare_by a b = ground arith

    sorted_front :
        (dst : List A) (n : ℕ) → IsTop less n dst (take n (sort_func (compare_by less) dst))
    sorted_front dst n = record {
      others = drop n l;
      same = rw (take-append-drop n l) (sorts.same (compare_by less) dst);
      size = omega (arith, length-take n l, length-perm l dst (sorts.same (compare_by less) dst));
      ordered = take-Ordered less n l in_order;
      ahead = take-Ahead less n l in_order;
    }
      where
        l : List A
        l = sort_func (compare_by less) dst

        same_test : below (compare_by less) ≡ less
        same_test = fun_ext (λ a. fun_ext (below-compare_by a))

        in_order : Ordered less l
        in_order =
            subst (λ t. Ordered t l) same_test
              (sorts.ordered (compare_by less) dst (subst IsStrictWeak (sym same_test) order))

    selected_front :
        (dst : List A) (n : ℕ)
        → n ≤ length dst
        → (r : List A) × ((select less n 0 dst >>= λ d. some (take n d)) ≡ some r)
          × IsTop less n dst r
    selected_front dst n h =
        let c = select-Chosen less order n [] dst h tt tt in
        let long : n ≡ length c.front = omega (arith, c.size) in
        let whole : take n (c.front ++ c.back) ≡ c.front =
          ap (λ m. take m (c.front ++ c.back)) long ∙ take-append_left c.front c.back in
        (
          c.front,
          rw (c.found, whole) refl,
          record {
            others = c.back;
            same = c.same;
            size = omega (arith, c.size);
            ordered = c.ordered;
            ahead = c.ahead;
          },
        )

    within-IsTop :
        (dst : List A) (n : ℕ)
        → n ≤ length dst
        → (r : List A) × (top_within sort_func dst n less ≡ some r) × IsTop less n dst r
    unfolding top_within
    within-IsTop dst n h = elim (Bool-cases (ltb (length dst / 4) n)) [
      | inl many ↦ (take n (sort_func (compare_by less) dst), rw many refl, sorted_front dst n)
      | inr few ↦ let (r, e, top) = selected_front dst n h in (r, rw few e, top)
    ]

    IsTop-wider :
        {n m : ℕ} {src r : List A}
        → IsTop less n src r
        → min n (length src) ≡ min m (length src)
        → IsTop less m src r
    IsTop-wider top e = record {
      others = top.others;
      same = top.same;
      size = top.size ∙ e;
      ordered = top.ordered;
      ahead = top.ahead;
    }

    -- TopN ends and returns as many items as n asks for, or all if there are fewer. They are in order,
    -- and the others of the slice, with which they are its items, do not come before any of them; so
    -- with every n, if the test is a strict weak order and SortFunc sorts by a comparison.
    pub top_n-IsTop :
        (src : List A) (n : ℕ)
        → (r : List A) × (top_n sort_func src n less ≡ some r) × IsTop less n src r
    unfolding top_n
    top_n-IsTop [] n = (
      [],
      ground arith,
      record { others = []; same = Perm.refl []; size = omega arith; ordered = tt; ahead = tt },
    )
    top_n-IsTop (x ∷ l) zero = (
      [],
      refl,
      record {
        others = x ∷ l;
        same = Perm.refl (x ∷ l);
        size = omega arith;
        ordered = tt;
        ahead = tt;
      },
    )
    top_n-IsTop (x ∷ l) (suc n) =
        let items : ((suc n == 0) || (suc (length l) == 0)) ≡ false = ground arith in
        elim (Bool-cases (ltb (length (x ∷ l)) (suc n))) [
          | inl all ↦
              let (r, e, top) = within-IsTop (x ∷ l) (length (x ∷ l)) (omega arith) in
              (r, rw (items, all) e, IsTop-wider top (omega (arith, ltb→lt _ _ all)))
          | inr some_of ↦
              let (r, e, top) = within-IsTop (x ∷ l) (suc n) (ground arith) in
              (r, rw (items, some_of) e, top)
        ]

-- ByKey, with SortFunc as above: the items with the largest keys, in descending order of these, and
-- the others have no larger key.
pub by_key-IsTop :
    {A : Type 0} (sort_func : (A → A → ℤ) → List A → List A)
    → IsSort sort_func
    → (key : A → ℕ) (src : List A) (n : ℕ)
    → (r : List A) × (by_key sort_func src n key ≡ some r)
      × IsTop (λ a b. ltb (key b) (key a)) n src r
unfolding by_key
by_key-IsTop sort_func sorts key src n =
    top_n-IsTop sort_func sorts (λ a b. ltb (key b) (key a))
      (record {
        irreflexive = λ a. ground arith;
        transitive = λ a b c h k. ground arith;
        weak = λ a b c h k. ground arith;
      })
      src n
