-- ===== src/Art/Insertions.antt =====
-- art/tree.go: what Get reads after `put`, for the whole tree.
use mathlib.Core.List.{append_assoc}
use yakutil.Base.{
  ℕ, ◌≡◌, ◌≢◌, inl, inr, sym, ◌∙◌, Option, none, some, List, [], ◌∷◌, ◌++◌, arith, ◌==◌, ==_iff,
  Bool-cases,
}
use yakutil.Art.Tree.{Node, leaf, inner, Kids, end, kid, get, put, put_child}
use yakutil.Art.Paths.{IsNode, AreKids}
use yakutil.Art.Forks.{Put}
use yakutil.Art.Puts.{PutKids, put_leaf-Put, put_inner-Put}

module _ {V : Type 0} where
  -- A child other than the one for the byte stays.
  behind-PutKids :
      (q : List ℕ) (b : ℕ) (n : Node V) (l : Kids V) (c : ℕ) (key r : List ℕ) (v : V)
      (later : Option (Option V × Kids V))
      → b ≢ c
      → AreKids q (kid b n l)
      → PutKids q l c key r v later
      → PutKids q
          (kid b n l)
          c
          key
          r
          v
          (elim later [ none ↦ none | some (old, l') ↦ some (old, kid b n l') ])
  unfolding IsNode get
  behind-PutKids q b n l c key r v none other good absent = (other, absent)
  behind-PutKids q b n l c key r v (some (old, l')) other (at, above, rest)
        (good, up, is_old, gets) =
      (
        (at, up b above, good),
        (λ a (h, more). (h, up a more)),
        is_old ∙ ground (arith, other),
        λ d t j is_j. ground (arith, other, gets d t j is_j),
      )

  this-PutKids :
      (q : List ℕ) (b : ℕ) (n : Node V) (l : Kids V) (c : ℕ) (key r : List ℕ) (v : V)
      (result : Option V × Node V)
      → b ≡ c
      → AreKids q (kid b n l)
      → Put (q ++ (b ∷ [])) n key r v result
      → PutKids q (kid b n l) c key r v (some (result.0, kid b result.1 l))
  unfolding IsNode get
  this-PutKids q b n l c key r v result is_c (at, above, rest) p = (
    (p.valid, above, rest),
    (λ a h. h),
    p.old ∙ ground (arith, is_c),
    λ d t j is_j. elim (Bool-cases (b == d)) [
      | inl e ↦
          let b_d : b ≡ d = (==_iff b d).0 e in
          let path : j ≡ (q ++ (b ∷ [])) ++ t = rw b_d (is_j ∙ sym (append_assoc q (d ∷ []) t)) in
          ground (arith, e, is_c, p.gets j t path)
      | inr other ↦ ground (arith, other, is_c)
    ],
  )

  mutual
    unfolding put IsNode

    pub put_all :
        (n : Node V) (p key s : List ℕ) (v : V)
        → key ≡ p ++ s
        → IsNode p n
        → Put p n key s v (put n key v s)
    put_all (leaf k old) p key s v is_key good = put_leaf-Put p s k key old v is_key good
    put_all (inner kind pfx term kids) p key s v is_key good =
        put_inner-Put p s key v kind pfx term kids is_key good
          (λ c r is_key'. put_child_all kids (p ++ pfx) c key r v is_key' good.1)

    put_child_all :
        (l : Kids V) (q : List ℕ) (c : ℕ) (key r : List ℕ) (v : V)
        → key ≡ q ++ (c ∷ r)
        → AreKids q l
        → PutKids q l c key r v (put_child l c key v r)
    put_child_all end q c key r v is_key good = tt
    put_child_all (kid b n l) q c key r v is_key good = elim (Bool-cases (b == c)) [
      | inl e ↦
          let is_c : b ≡ c = (==_iff b c).0 e in
          let path : key ≡ (q ++ (b ∷ [])) ++ r =
            rw is_c (is_key ∙ sym (append_assoc q (c ∷ []) r)) in
          rw e (
            this-PutKids q b n l c key r v (put n key v r) is_c good
              (put_all n (q ++ (b ∷ [])) key r v path good.0))
      | inr other ↦ rw other (
          behind-PutKids q b n l c key r v (put_child l c key v r) (ground (arith, other)) good
            (put_child_all l q c key r v is_key good.2))
    ]
