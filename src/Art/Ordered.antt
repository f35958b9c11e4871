-- ===== src/Art/Ordered.antt =====
-- art/tree.go: the entries of a tree ascend by their keys, and Get looks a key up among them.
use mathlib.Core.List.{append_assoc, append-nil}
use yakutil.Base.{ℕ, ◌<◌, ◌≡◌, sym, ◌∙◌, true, Option, none, some, List, [], ◌∷◌, ◌++◌, arith}
use yakutil.Art.Tree.{Node, leaf, inner, Kids, end, kid}
use yakutil.Art.Paths.{IsNode, AreKids, EndsAt, Above}
use yakutil.Art.Walk.{greater}
use yakutil.Art.Entries.{
  entries, kids_entries, term_entries, All, All-append, All-map, Under, entries-All,
}
use yakutil.Art.Seeks.{greater-append}

larger_byte :
    (q : List ℕ) (b c : ℕ) (e x k k' : List ℕ)
    → b < c
    → k ≡ (q ++ (b ∷ [])) ++ e
    → k' ≡ q ++ (c ∷ x)
    → greater k' k ≡ true
unfolding greater
larger_byte q b c e x k k' h is_k is_k' =
    rw (is_k, is_k', append_assoc q (b ∷ []) e)
      (greater-append q (c ∷ x) (b ∷ e) ∙ ground (arith, h))

-- The keys behind the children above a byte.
abbrev pub Beyond : List ℕ → ℕ → List ℕ → Type 0
Beyond q b k = (c : ℕ) × (x : List ℕ) × (b < c) × (k ≡ q ++ (c ∷ x))

-- The keys behind any child.
abbrev pub Longer : List ℕ → List ℕ → Type 0
Longer q k = (c : ℕ) × (x : List ℕ) × (k ≡ q ++ (c ∷ x))

module _ {V : Type 0} where
  -- Each key is larger than those before it.
  abbrev pub Ascending : List (List ℕ × V) → Type 0
  Ascending [] = Unit
  Ascending ((k, v) ∷ l) = All (λ k'. greater k' k ≡ true) l × Ascending l

  Ascending-append :
      (l m : List (List ℕ × V))
      → Ascending l
      → Ascending m
      → All (λ k. All (λ k'. greater k' k ≡ true) m) l
      → Ascending (l ++ m)
  Ascending-append [] m a b c = b
  Ascending-append ((k, v) ∷ l) m (h, a) b (after, c) =
      (All-append (λ k'. greater k' k ≡ true) l m h after, Ascending-append l m a b c)

  pub kids_entries-Beyond :
      (l : Kids V) (q : List ℕ) (b : ℕ)
      → AreKids q l
      → Above b l
      → All (Beyond q b) (kids_entries l)
  unfolding entries IsNode
  kids_entries-Beyond end q b good up = tt
  kids_entries-Beyond (kid c n l) q b (at, above, good) (less, up) =
      All-append (Beyond q b) (entries n) (kids_entries l)
        (All-map (Under (q ++ (c ∷ []))) (Beyond q b) (entries n)
          (λ k (e, is_k). (c, e, less, is_k ∙ append_assoc q (c ∷ []) e))
          (entries-All n (q ++ (c ∷ [])) at))
        (kids_entries-Beyond l q b good up)

  pub kids_entries-Longer :
      (l : Kids V) (q : List ℕ) → AreKids q l → All (Longer q) (kids_entries l)
  unfolding entries IsNode
  kids_entries-Longer end q good = tt
  kids_entries-Longer (kid c n l) q (at, above, good) =
      All-append (Longer q) (entries n) (kids_entries l)
        (All-map (Under (q ++ (c ∷ []))) (Longer q) (entries n)
          (λ k (e, is_k). (c, e, is_k ∙ append_assoc q (c ∷ []) e))
          (entries-All n (q ++ (c ∷ [])) at))
        (kids_entries-Longer l q good)

  term-Ascending :
      (q : List ℕ) (term : Option (List ℕ × V)) (kids : Kids V)
      → EndsAt q term
      → AreKids q kids
      → Ascending (kids_entries kids)
      → Ascending (term_entries term ++ kids_entries kids)
  unfolding greater
  term-Ascending q none kids ends good up = up
  term-Ascending q (some (k, v)) kids is_k good up = (
    All-map (Longer q) (λ k'. greater k' k ≡ true) (kids_entries kids)
        (λ k' (c, x, is_k'). rw (is_k ∙ sym (append-nil q), is_k') (greater-append q (c ∷ x) []))
        (kids_entries-Longer kids q good),
    up,
  )

  mutual
    unfolding entries IsNode

    pub entries-Ascending : (n : Node V) (p : List ℕ) → IsNode p n → Ascending (entries n)
    entries-Ascending (leaf k v) p good = (tt, tt)
    entries-Ascending (inner kind pfx term kids) p (ends, good) =
        term-Ascending (p ++ pfx) term kids ends good (kids_entries-Ascending kids (p ++ pfx) good)

    kids_entries-Ascending : (l : Kids V) (q : List ℕ) → AreKids q l → Ascending (kids_entries l)
    kids_entries-Ascending end q good = tt
    kids_entries-Ascending (kid b n l) q (at, above, good) =
        Ascending-append (entries n) (kids_entries l) (entries-Ascending n (q ++ (b ∷ [])) at)
          (kids_entries-Ascending l q good)
          (All-map (Under (q ++ (b ∷ []))) (λ k. All (λ k'. greater k' k ≡ true) (kids_entries l))
            (entries n)
            (λ k (e, is_k).
              All-map (Beyond q b) (λ k'. greater k' k ≡ true) (kids_entries l)
                (λ k' (c, x, less, is_k'). larger_byte q b c e x k k' less is_k is_k')
                (kids_entries-Beyond l q b good above))
            (entries-All n (q ++ (b ∷ [])) at))
