-- ===== src/Topn/Insertion.antt =====
-- A sort that keeps what package slices says of SortFunc, for runs at concrete slices.
use mathlib.Core.List.Perm
use mathlib.Core.List.{Perm}
use yakutil.Base.{◌≡◌, true, false, List, [], ◌∷◌, Bool-cases, inl, inr, if◌then◌else◌}
use yakutil.Base.Int.{ℤ}
use yakutil.Topn.Orders.{All, All-map, IsStrictWeak, NotBefore, Ordered}
use yakutil.Topn.Firsts.{below, IsSort}

module _ {A : Type 0} (cmp : A → A → ℤ) where
  unfoldable pub ordered_insert : A → List A → List A
  ordered_insert x [] = x ∷ []
  ordered_insert x (y ∷ l) = if below cmp y x then y ∷ ordered_insert x l else x ∷ y ∷ l

  unfoldable pub insertion_sort : List A → List A
  insertion_sort [] = []
  insertion_sort (x ∷ l) = ordered_insert x (insertion_sort l)

  ordered_insert-perm : (x : A) (l : List A) → Perm (ordered_insert x l) (x ∷ l)
  unfolding ordered_insert
  ordered_insert-perm x [] = Perm.refl (x ∷ [])
  ordered_insert-perm x (y ∷ l) = elim (Bool-cases (below cmp y x)) [
    | inl e ↦ rw e (Perm.trans (Perm.cons y (ordered_insert-perm x l)) (Perm.swap x y l))
    | inr e ↦ rw e (Perm.refl (x ∷ y ∷ l))
  ]

  ordered_insert-All :
      (P : A → Type 0) (x : A) (l : List A) → All P l → P x → All P (ordered_insert x l)
  unfolding ordered_insert
  ordered_insert-All P x [] h p = (p, tt)
  ordered_insert-All P x (y ∷ l) h p = elim (Bool-cases (below cmp y x)) [
    | inl e ↦ rw e (h.0, ordered_insert-All P x l h.1 p)
    | inr e ↦ rw e (p, h)
  ]

  module _ (order : IsStrictWeak (below cmp)) where
    asymmetric : (x y : A) → below cmp y x ≡ true → below cmp x y ≡ false
    asymmetric x y h = elim (Bool-cases (below cmp x y)) [
      | inl e ↦ let back = order.transitive y x y h e in let never = order.irreflexive y in cc
      | inr e ↦ e
    ]

    ordered_insert-Ordered :
        (x : A) (l : List A) → Ordered (below cmp) l → Ordered (below cmp) (ordered_insert x l)
    unfolding ordered_insert
    ordered_insert-Ordered x [] h = (tt, tt)
    ordered_insert-Ordered x (y ∷ l) h = elim (Bool-cases (below cmp y x)) [
      | inl e ↦ rw e (
        ordered_insert-All (NotBefore (below cmp) y) x l h.0 (asymmetric x y e),
        ordered_insert-Ordered x l h.1,
      )
      | inr e ↦ rw e (
        (
          e,
          All-map (NotBefore (below cmp) y) (NotBefore (below cmp) x) l
              (λ z k. order.weak z y x k e) h.0,
        ),
        h,
      )
    ]

pub insertion_sort-IsSort : (A : Type 0) → IsSort {A = A} insertion_sort
unfolding insertion_sort
insertion_sort-IsSort A = record { same = same; ordered = in_order }
  where
    same : (cmp : A → A → ℤ) (l : List A) → Perm (insertion_sort cmp l) l
    same cmp [] = Perm.refl []
    same cmp (x ∷ l) =
        Perm.trans (ordered_insert-perm cmp x (insertion_sort cmp l)) (Perm.cons x (same cmp l))

    in_order :
        (cmp : A → A → ℤ) (l : List A)
        → IsStrictWeak (below cmp)
        → Ordered (below cmp) (insertion_sort cmp l)
    in_order cmp [] order = tt
    in_order cmp (x ∷ l) order =
        ordered_insert-Ordered cmp order x (insertion_sort cmp l) (in_order cmp l order)
