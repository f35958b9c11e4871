-- ===== src/Topn/Select.antt =====
-- topn/topn.go: TopN and ByKey. The test `less` is a function, `slices.SortFunc` a parameter; a
-- slice is a list, nil the empty one, and a negative n counts as 0. `none` is an index out of range.
use yakutil.Base.{
  ℕ, zero, suc, ◌/◌, Bool, ◌||◌, Option, some, List, [], ◌∷◌, ltb, ◌==◌, ◌>>=◌, if◌then◌else◌,
  length, get_elem?, set, take, drop,
}
use yakutil.Base.Int.{ℤ, pos, negsuc}

module _ {A : Type 0} where
  -- the comparison that the full sort is given
  unfoldable pub compare_by : (A → A → Bool) → A → A → ℤ
  compare_by less a b = if less a b then negsuc 0 else if less b a then pos 1 else pos 0

  -- `for j := i + 1; j < len(dst); j++`, from `j` on: the items that are left are `dst[j:]`, and
  -- `x` is `dst[best]`.
  unfoldable pub scan : (A → A → Bool) → A → ℕ → ℕ → List A → ℕ
  scan less x best j [] = best
  scan less x best j (y ∷ l) =
      scan less (if less y x then y else x) (if less y x then j else best) (suc j) l

  -- `dst[i], dst[best] = dst[best], dst[i]`
  unfoldable pub swap : List A → ℕ → ℕ → Option (List A)
  swap dst i best =
      get_elem? dst i >>= λ x. get_elem? dst best >>= λ y. some (set (set dst i y) best x)

  -- `for i := 0; i < n; i++`, with the rounds that are left
  unfoldable pub select : (A → A → Bool) → ℕ → ℕ → List A → Option (List A)
  select less zero i dst = some dst
  select less (suc rounds) i dst = get_elem? dst i >>= λ x.
      swap dst i (scan less x i (suc i) (drop (suc i) dst)) >>= select less rounds (suc i)

  module _ (sort_func : (A → A → ℤ) → List A → List A) where
    -- from where n is at most the number of items
    unfoldable pub top_within : List A → ℕ → (A → A → Bool) → Option (List A)
    top_within dst n less =
        if ltb (length dst / 4) n
        then some (take n (sort_func (compare_by less) dst))
        else (select less n 0 dst >>= λ d. some (take n d))

    -- `TopN`
    unfoldable pub top_n : List A → ℕ → (A → A → Bool) → Option (List A)
    top_n src n less =
        if (n == 0) || (length src == 0)
        then some []
        else top_within src (if ltb (length src) n then length src else n) less

    -- `ByKey`, of natural keys
    unfoldable pub by_key : List A → ℕ → (A → ℕ) → Option (List A)
    by_key src n key = top_n src n (λ a b. ltb (key b) (key a))
