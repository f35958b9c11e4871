-- ===== src/Art/Removals.antt =====
-- art/tree.go: what Get reads after `del`, for the whole tree.
use mathlib.Core.List.{append_assoc}
use yakutil.Base.{
  ℕ, ◌≡◌, ◌≢◌, inl, inr, refl, sym, ◌∙◌, Option, none, some, List, [], ◌∷◌, ◌++◌, arith, ◌==◌,
  ==_iff, Bool-cases,
}
use yakutil.Art.Tree.{
  Node, leaf, inner, Kids, end, kid, Changed, gone, kept, get, get_child, behind, replace_child,
  del, del_child,
}
use yakutil.Art.Paths.{IsNode, AreKids, Above, Absent, get_child-Absent}
use yakutil.Art.Deletes.{Del, DelKids, del_leaf-Del, del_inner-Del}

module _ {V : Type 0} where
  behind-DelKids :
      (q : List ℕ) (b : ℕ) (n : Node V) (l : Kids V) (c : ℕ) (key r : List ℕ)
      (later : Option (V × Changed V))
      → b ≢ c
      → AreKids q (kid b n l)
      → DelKids q l c key r later
      → DelKids q
          (kid b n l)
          c
          key
          r
          (elim later [ none ↦ none | some (old, ch) ↦ some (old, behind b n ch) ])
  unfolding IsNode get behind
  behind-DelKids q b n l c key r none other good absent = ground (arith, other, absent)
  behind-DelKids q b n l c key r (some (old, gone l')) other (at, above, rest)
        (good, up, is_old, gets) =
      (
        (at, up b above, good),
        (λ a (h, more). (h, up a more)),
        is_old ∙ ground (arith, other),
        λ d t j is_j. ground (arith, other, gets d t j is_j),
      )
  behind-DelKids q b n l c key r (some (old, kept l')) other (at, above, rest)
        (good, up, is_old, gets) =
      (
        (at, up b above, good),
        (λ a (h, more). (h, up a more)),
        is_old ∙ ground (arith, other),
        λ d t j is_j. ground (arith, other, gets d t j is_j),
      )

  pub Above-Absent : (b : ℕ) (l : Kids V) → Above b l → Absent b l
  Above-Absent b end up = tt
  Above-Absent b (kid c n l) (less, up) = (ground (arith, less), Above-Absent b l up)

  -- The child for the byte, changed or gone.
  this-DelKids :
      (q : List ℕ) (b : ℕ) (n : Node V) (l : Kids V) (c : ℕ) (key r : List ℕ) (old : V)
      (o : Option (Node V))
      → b ≡ c
      → AreKids q (kid b n l)
      → Del (q ++ (b ∷ [])) n key r (some old, o)
      → DelKids q (kid b n l) c key r (some (old, replace_child b o l))
  unfolding IsNode get replace_child
  this-DelKids q b n l c key r old none is_c (at, above, rest) d = (
    rest,
    (λ a (h, more). more),
    d.old ∙ ground (arith, is_c),
    λ e t j is_j. elim (Bool-cases (b == e)) [
      | inl here ↦
          let b_e : b ≡ e = (==_iff b e).0 here in
          let path : j ≡ (q ++ (b ∷ [])) ++ t = rw b_e (is_j ∙ sym (append_assoc q (e ∷ []) t)) in
          let none_else : get_child l e j t ≡ none =
            rw (← b_e) (get_child-Absent l b j t (Above-Absent b l above)) in
          ground (arith, here, is_c, none_else, d.gets j t path)
      | inr other ↦ ground (arith, other, is_c)
    ],
  )
  this-DelKids q b n l c key r old (some n') is_c (at, above, rest) d = (
    (d.valid, above, rest),
    (λ a h. h),
    d.old ∙ ground (arith, is_c),
    λ e t j is_j. elim (Bool-cases (b == e)) [
      | inl here ↦
          let b_e : b ≡ e = (==_iff b e).0 here in
          let path : j ≡ (q ++ (b ∷ [])) ++ t = rw b_e (is_j ∙ sym (append_assoc q (e ∷ []) t)) in
          ground (arith, here, is_c, d.gets j t path)
      | inr other ↦ ground (arith, other, is_c)
    ],
  )

  found-DelKids :
      (q : List ℕ) (b : ℕ) (n : Node V) (l : Kids V) (c : ℕ) (key r : List ℕ)
      (result : Option V × Option (Node V))
      → b ≡ c
      → AreKids q (kid b n l)
      → Del (q ++ (b ∷ [])) n key r result
      → DelKids q
          (kid b n l)
          c
          key
          r
          (elim (result.0) [ none ↦ none | some old ↦ some (old, replace_child b result.1 l) ])
  unfolding get
  found-DelKids q b n l c key r (none, o) is_c good d = ground (arith, is_c, d.old)
  found-DelKids q b n l c key r (some old, o) is_c good d =
      this-DelKids q b n l c key r old o is_c good d

  mutual
    unfolding del IsNode get

    pub del_all :
        (n : Node V) (p key s : List ℕ) → key ≡ p ++ s → IsNode p n → Del p n key s (del n key s)
    del_all (leaf k v) p key s is_key good = del_leaf-Del p s k key v is_key good
    del_all (inner kind pfx term kids) p key s is_key good =
        del_inner-Del p s key kind pfx term kids is_key good
          (λ c r is_key'. del_child_all kids (p ++ pfx) c key r is_key' good.1)

    del_child_all :
        (l : Kids V) (q : List ℕ) (c : ℕ) (key r : List ℕ)
        → key ≡ q ++ (c ∷ r)
        → AreKids q l
        → DelKids q l c key r (del_child l c key r)
    del_child_all end q c key r is_key good = refl
    del_child_all (kid b n l) q c key r is_key good = elim (Bool-cases (b == c)) [
      | inl e ↦
          let is_c : b ≡ c = (==_iff b c).0 e in
          let path : key ≡ (q ++ (b ∷ [])) ++ r =
            rw is_c (is_key ∙ sym (append_assoc q (c ∷ []) r)) in
          rw e (
            found-DelKids q b n l c key r (del n key r) is_c good
              (del_all n (q ++ (b ∷ [])) key r path good.0))
      | inr other ↦ rw other (
          behind-DelKids q b n l c key r (del_child l c key r) (ground (arith, other)) good
            (del_child_all l q c key r is_key good.2))
    ]
