-- ===== src/Art/Lookup.antt =====
-- art/tree.go: Get looks a key up among the entries.
use mathlib.Core.List.{append_assoc, append-nil}
use yakutil.Base.{
  ℕ, ◌≡◌, inl, inr, refl, sym, ◌∙◌, ap, true, false, Option, none, some, List, [], ◌∷◌, ◌++◌, arith,
  ◌==◌, ==_iff, Bool-cases, Option-cases, if◌then◌else◌,
}
use yakutil.Art.Keys.{same, same-append, same_refl, strip, strip-some}
use yakutil.Art.Tree.{Kind, Node, leaf, inner, Kids, end, kid, get, get_child}
use yakutil.Art.Paths.{IsNode, AreKids, EndsAt, get-inner, get_rest}
use yakutil.Art.Entries.{
  entries, kids_entries, term_entries, All, All-map, Under, entries-All, entries-All_inner,
}
use yakutil.Art.Ordered.{Beyond, Longer, kids_entries-Beyond, kids_entries-Longer}

strip-none : (pfx s e : List ℕ) → strip pfx s ≡ none → same (pfx ++ e) s ≡ false
unfolding strip
strip-none [] s e h = cc
strip-none (b ∷ pfx) [] e h = refl
strip-none (b ∷ pfx) (c ∷ s) e h = elim (Bool-cases (b == c)) [
  | inl y ↦ rw y (strip-none pfx s e (ground (arith, h, y)))
  | inr y ↦ rw y refl
]

module _ {V : Type 0} where
  abbrev pub lookup : List ℕ → List (List ℕ × V) → Option V
  lookup key [] = none
  lookup key ((k, v) ∷ l) = let rest = lookup key l in if same k key then some v else rest

  lookup-append :
      (key : List ℕ) (l m : List (List ℕ × V))
      → lookup key (l ++ m) ≡ elim (lookup key l) [ none ↦ lookup key m | some v ↦ some v ]
  lookup-append key [] m = refl
  lookup-append key ((k, v) ∷ l) m = elim (Bool-cases (same k key)) [
    | inl e ↦ rw e refl
    | inr e ↦ rw e (lookup-append key l m)
  ]

  lookup-none :
      (key : List ℕ) (l : List (List ℕ × V)) → All (λ k. same k key ≡ false) l → lookup key l ≡ none
  lookup-none key [] a = refl
  lookup-none key ((k, v) ∷ l) (h, a) = rw h (lookup-none key l a)

  -- No key of the list passes the test for the key.
  lookup-apart :
      (P : List ℕ → Type 0) (key : List ℕ) (l : List (List ℕ × V))
      → All P l
      → ((k : List ℕ) → P k → same k key ≡ false)
      → lookup key l ≡ none
  lookup-apart P key l a each = lookup-none key l (All-map P (λ k. same k key ≡ false) l each a)

  rest-lookup :
      (q r key : List ℕ) (term : Option (List ℕ × V)) (kids : Kids V)
      → key ≡ q ++ r
      → EndsAt q term
      → AreKids q kids
      → ((c : ℕ) (r' : List ℕ)
          → key ≡ q ++ (c ∷ r')
          → get_child kids c key r' ≡ lookup key (kids_entries kids))
      → get_rest term kids key r ≡ lookup key (term_entries term ++ kids_entries kids)
  rest-lookup q [] key none kids is_key ends good each = sym (
      lookup-apart (Longer q) key (kids_entries kids) (kids_entries-Longer kids q good)
        (λ k (c, x, is_k). rw (is_k, is_key) (same-append q (c ∷ x) [])))
  rest-lookup q [] key (some (k, v)) kids is_key is_k good each =
      let found : same k key ≡ true = rw (is_k, is_key, append-nil q) (same_refl q) in rw found refl
  rest-lookup q (c ∷ r) key none kids is_key ends good each = each c r is_key
  rest-lookup q (c ∷ r) key (some (k, v)) kids is_key is_k good each =
      let other : same k key ≡ false =
        rw (is_k ∙ sym (append-nil q), is_key) (same-append q [] (c ∷ r)) in
      rw other (each c r is_key)

  inner-lookup :
      (kind : Kind) (pfx : List ℕ) (term : Option (List ℕ × V)) (kids : Kids V) (p s key : List ℕ)
      → key ≡ p ++ s
      → IsNode p (inner kind pfx term kids)
      → ((c : ℕ) (r : List ℕ)
          → key ≡ (p ++ pfx) ++ (c ∷ r)
          → get_child kids c key r ≡ lookup key (kids_entries kids))
      → get (inner kind pfx term kids) key s ≡ lookup key (entries (inner kind pfx term kids))
  unfolding entries IsNode
  inner-lookup kind pfx term kids p s key is_key good each =
      get-inner kind pfx term kids key s ∙ elim (Option-cases (strip pfx s)) [
        | inl off ↦ rw off (
            sym (
              lookup-apart (Under (p ++ pfx)) key (entries (inner kind pfx term kids))
                (entries-All_inner kind p pfx term kids good)
                (λ k (e, is_k).
                  rw (is_k, is_key, append_assoc p pfx e)
                    (same-append p (pfx ++ e) s ∙ strip-none pfx s e off))))
        | inr (r, on) ↦
            let path : key ≡ (p ++ pfx) ++ r =
              is_key ∙ (ap (λ x. p ++ x) (strip-some pfx s on) ∙ sym (append_assoc p pfx r)) in
            rw on (rest-lookup (p ++ pfx) r key term kids path good.0 good.1 each)
      ]

  child-lookup :
      (b : ℕ) (n : Node V) (l : Kids V) (q : List ℕ) (c : ℕ) (key r : List ℕ)
      → key ≡ q ++ (c ∷ r)
      → AreKids q (kid b n l)
      → (key ≡ (q ++ (b ∷ [])) ++ r → get n key r ≡ lookup key (entries n))
      → get_child l c key r ≡ lookup key (kids_entries l)
      → get_child (kid b n l) c key r ≡ lookup key (kids_entries (kid b n l))
  unfolding get entries IsNode
  child-lookup b n l q c key r is_key (at, above, good) here later = elim (Bool-cases (b == c)) [
    | inl e ↦
        let is_c : b ≡ c = (==_iff b c).0 e in
        let path : key ≡ (q ++ (b ∷ [])) ++ r =
          rw is_c (is_key ∙ sym (append_assoc q (c ∷ []) r)) in
        let no_more : lookup key (kids_entries l) ≡ none =
          lookup-apart (Beyond q b) key (kids_entries l) (kids_entries-Beyond l q b good above)
            (λ k (d, x, less, is_k).
              rw (is_k, is_key) (same-append q (d ∷ x) (c ∷ r) ∙ ground (arith, less, is_c))) in
        rw e (
          here path
          ∙ (or_none (lookup key (entries n)) (lookup key (kids_entries l)) no_more
              ∙ sym (lookup-append key (entries n) (kids_entries l))))
    | inr other ↦
        let not_here : lookup key (entries n) ≡ none =
          lookup-apart (Under (q ++ (b ∷ []))) key (entries n) (entries-All n (q ++ (b ∷ [])) at)
            (λ k (x, is_k).
              rw (is_k, is_key, append_assoc q (b ∷ []) x)
                (same-append q (b ∷ x) (c ∷ r) ∙ rw other refl)) in
        rw other (later ∙ sym (lookup-append key (entries n) (kids_entries l) ∙ rw not_here refl))
  ]
    where
      or_none :
          (o m : Option V) → m ≡ none → o ≡ elim o as (λ x. Option V) [ none ↦ m | some v ↦ some v ]
      or_none none m h = sym h
      or_none (some v) m h = refl

  mutual
    unfolding get entries IsNode

    pub get-lookup :
        (n : Node V) (p s key : List ℕ)
        → key ≡ p ++ s
        → IsNode p n
        → get n key s ≡ lookup key (entries n)
    get-lookup (leaf k v) p s key is_key good = refl
    get-lookup (inner kind pfx term kids) p s key is_key good =
        inner-lookup kind pfx term kids p s key is_key good
          (λ c r is_key'. get_child-lookup kids (p ++ pfx) c key r is_key' good.1)

    get_child-lookup :
        (l : Kids V) (q : List ℕ) (c : ℕ) (key r : List ℕ)
        → key ≡ q ++ (c ∷ r)
        → AreKids q l
        → get_child l c key r ≡ lookup key (kids_entries l)
    get_child-lookup end q c key r is_key good = refl
    get_child-lookup (kid b n l) q c key r is_key good =
        child-lookup b n l q c key r is_key good
          (λ path. get-lookup n (q ++ (b ∷ [])) r key path good.0)
          (get_child-lookup l q c key r is_key good.2)
