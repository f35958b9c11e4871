-- ===== src/Topn/Tests.antt =====
-- topn/topn.go: runs of both ways, and the theorem at an input that meets its hypotheses.
use yakutil.Base.{ℕ, ◌≡◌, refl, Bool, some, List, [], ◌∷◌, arith, ltb}
use yakutil.Topn.Select.{compare_by, scan, swap, select, top_within, top_n, by_key}
use yakutil.Topn.Orders.{IsStrictWeak}
use yakutil.Topn.Firsts.{IsTop, top_n-IsTop}
use yakutil.Topn.Insertion.{ordered_insert, insertion_sort, insertion_sort-IsSort}

program : Unit {0}
unfolding compare_by scan swap select top_within top_n by_key ordered_insert insertion_sort
program = tt

abbrev items : List ℕ
items = 3 ∷ 1 ∷ 4 ∷ 1 ∷ 5 ∷ 9 ∷ 2 ∷ 6 ∷ []

abbrev larger : ℕ → ℕ → Bool
larger a b = ltb b a

select-items : select larger 2 0 items ≡ some (9 ∷ 6 ∷ 4 ∷ 1 ∷ 5 ∷ 3 ∷ 2 ∷ 1 ∷ [])
unfolding program
select-items = refl

top_n-items : top_n insertion_sort items 2 larger ≡ some (9 ∷ 6 ∷ [])
unfolding program
top_n-items = refl

top_n_many : top_n insertion_sort items 3 larger ≡ some (9 ∷ 6 ∷ 5 ∷ [])
unfolding program
top_n_many = refl

top_n_all : by_key insertion_sort items 20 (λ n. n) ≡ some (9 ∷ 6 ∷ 5 ∷ 4 ∷ 3 ∷ 2 ∷ 1 ∷ 1 ∷ [])
unfolding program
top_n_all = refl

larger-IsStrictWeak : IsStrictWeak larger
larger-IsStrictWeak = record {
  irreflexive = λ a. ground arith;
  transitive = λ a b c h k. ground arith;
  weak = λ a b c h k. ground arith;
}

top_n-IsTop_example :
    (r : List ℕ) × (top_n insertion_sort items 2 larger ≡ some r) × IsTop larger 2 items r
top_n-IsTop_example =
    top_n-IsTop insertion_sort (insertion_sort-IsSort ℕ) larger larger-IsStrictWeak items 2
