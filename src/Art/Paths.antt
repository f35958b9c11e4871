-- ===== src/Art/Paths.antt =====
-- art/tree.go: when a tree is in order, and what Get reads at a node.
use yakutil.Base.{
  ℕ, ◌<◌, ◌≡◌, ◌≢◌, inl, inr, refl, Option, none, some, List, [], ◌∷◌, ◌++◌, arith, ltb, ◌==◌,
  Bool-cases, ◌>>=◌, if◌then◌else◌,
}
use yakutil.Art.Keys.{same, strip, same-append}
use yakutil.Art.Tree.{Kind, Node, leaf, inner, Kids, end, kid, value, get, get_child, add_child}

module _ {V : Type 0} where
  -- All bytes of the children are above `b`.
  abbrev pub Above : ℕ → Kids V → Type 0
  Above b end = Unit
  Above b (kid c n l) = (b < c) × Above b l

  abbrev pub EndsAt : List ℕ → Option (List ℕ × V) → Type 0
  EndsAt q none = Unit
  EndsAt q (some (k, v)) = k ≡ q

  -- What stands below the path `p`: keys begin with the path to them, and the bytes of the children
  -- ascend.
  unfoldable mutual
    pub IsNode : List ℕ → Node V → Type 0
    IsNode p (leaf k v) = (s : List ℕ) × (k ≡ p ++ s)
    IsNode p (inner kind q term kids) = EndsAt (p ++ q) term × AreKids (p ++ q) kids

    pub AreKids : List ℕ → Kids V → Type 0
    AreKids q end = Unit
    AreKids q (kid b n l) = IsNode (q ++ (b ∷ [])) n × Above b l × AreKids q l

  -- Get at an inner node, once its prefix has been taken off.
  abbrev pub get_rest : Option (List ℕ × V) → Kids V → List ℕ → List ℕ → Option V
  get_rest term kids key [] = value term
  get_rest term kids key (c ∷ r) = get_child kids c key r

  pub get-inner :
      (kind : Kind) (q : List ℕ) (term : Option (List ℕ × V)) (kids : Kids V) (key rest : List ℕ)
      → get (inner kind q term kids) key rest ≡ (strip q rest >>= λ r. get_rest term kids key r)
  unfolding get
  get-inner kind q term kids key rest = go (strip q rest)
    where
      go :
          (o : Option (List ℕ))
          → elim o as (λ x. Option V) [
            | none ↦ none
            | some [] ↦ value term
            | some (c ∷ r) ↦ get_child kids c key r
          ]
            ≡ (o >>= λ r. get_rest term kids key r)
      go none = refl
      go (some []) = refl
      go (some (c ∷ r)) = refl

  -- A leaf is found by its own key.
  pub get-leaf :
      (q a t k key rest : List ℕ) (v : V)
      → k ≡ q ++ a
      → key ≡ q ++ t
      → get (leaf k v) key rest ≡ (if same a t then some v else none)
  unfolding get
  get-leaf q a t k key rest v is_k is_key = rw (is_k, is_key, same-append q a t) refl

  -- No child has the byte.
  abbrev pub Absent : ℕ → Kids V → Type 0
  Absent c end = Unit
  Absent c (kid b n l) = (b ≢ c) × Absent c l

  pub get_child-Absent :
      (l : Kids V) (c : ℕ) (key rest : List ℕ) → Absent c l → get_child l c key rest ≡ none
  unfolding get
  get_child-Absent end c key rest a = refl
  get_child-Absent (kid b n l) c key rest (other, a) =
      ground (arith, get_child-Absent l c key rest a)

  pub get_child-add_child :
      (l : Kids V) (c : ℕ) (n : Node V) (b : ℕ) (key rest : List ℕ)
      → Absent c l
      → get_child (add_child c n l) b key rest
        ≡ (if c == b then get n key rest else get_child l b key rest)
  unfolding get add_child
  get_child-add_child end c n b key rest a = refl
  get_child-add_child (kid d m l) c n b key rest (other, a) =
      ground (arith, get_child-add_child l c n b key rest a)

  pub Above-add_child :
      (l : Kids V) (a c : ℕ) (n : Node V) → a < c → Above a l → Above a (add_child c n l)
  unfolding add_child
  Above-add_child end a c n h up = (h, tt)
  Above-add_child (kid b m l) a c n h (hb, up) = elim (Bool-cases (ltb c b)) [
    | inl e ↦ rw e (h, (hb, up))
    | inr e ↦ rw e (hb, Above-add_child l a c n h up)
  ]

  pub Above-trans : (l : Kids V) (a b : ℕ) → a < b → Above b l → Above a l
  Above-trans end a b h up = tt
  Above-trans (kid c n l) a b h (hc, up) = (omega arith, Above-trans l a b h up)

  pub AreKids-add_child :
      (q : List ℕ) (l : Kids V) (c : ℕ) (n : Node V)
      → Absent c l
      → IsNode (q ++ (c ∷ [])) n
      → AreKids q l
      → AreKids q (add_child c n l)
  unfolding add_child IsNode
  AreKids-add_child q end c n a good kids = (good, tt, tt)
  AreKids-add_child q (kid b m l) c n (other, a) good (at, up, kids) = elim (Bool-cases (ltb c b)) [
    | inl e ↦
        rw e (good, (ground (arith, e), Above-trans l c b (ground (arith, e)) up), (at, up, kids))
    | inr e ↦
        rw e (
          at,
          Above-add_child l b c n (ground (arith, e)) up,
          AreKids-add_child q l c n a good kids,
        )
  ]
