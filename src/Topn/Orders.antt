-- ===== src/Topn/Orders.antt =====
-- topn/topn.go: lists in the order of a test of which item comes first.
use mathlib.Core.List.Perm
use mathlib.Core.List.{Perm}
use yakutil.Base.{
  ℕ, zero, suc, ◌≡◌, refl, ap, Bool, true, false, some, List, [], ◌∷◌, ◌++◌, arith, get_elem?, set,
  take, drop,
}

module _ {A : Type 0} where
  abbrev pub All : (A → Type 0) → List A → Type 0
  All P [] = Unit {0}
  All P (x ∷ l) = P x × All P l

  pub All-get :
      (P : A → Type 0) (l : List A) (i : ℕ) (x : A) → All P l → get_elem? l i ≡ some x → P x
  All-get P [] i x h e = cc
  All-get P (y ∷ l) zero x h e = ground arith
  All-get P (y ∷ l) (suc i) x h e = All-get P l i x h.1 e

  pub All-set : (P : A → Type 0) (l : List A) (i : ℕ) (x : A) → All P l → P x → All P (set l i x)
  All-set P [] i x h p = tt
  All-set P (y ∷ l) zero x h p = (p, h.1)
  All-set P (y ∷ l) (suc i) x h p = (h.0, All-set P l i x h.1 p)

  pub All-append : (P : A → Type 0) (l m : List A) → All P l → All P m → All P (l ++ m)
  All-append P [] m h k = k
  All-append P (x ∷ l) m h k = (h.0, All-append P l m h.1 k)

  pub All-map : (P Q : A → Type 0) (l : List A) → ((x : A) → P x → Q x) → All P l → All Q l
  All-map P Q [] f h = tt
  All-map P Q (x ∷ l) f h = (f x h.0, All-map P Q l f h.1)

  pub All-take : (P : A → Type 0) (n : ℕ) (l : List A) → All P l → All P (take n l)
  All-take P zero l h = tt
  All-take P (suc n) [] h = tt
  All-take P (suc n) (x ∷ l) h = (h.0, All-take P n l h.1)

  pub All-drop : (P : A → Type 0) (n : ℕ) (l : List A) → All P l → All P (drop n l)
  All-drop P zero l h = h
  All-drop P (suc n) [] h = tt
  All-drop P (suc n) (x ∷ l) h = All-drop P n l h.1

  pub take-append-drop : (n : ℕ) (l : List A) → take n l ++ drop n l ≡ l
  take-append-drop zero l = refl
  take-append-drop (suc n) [] = refl
  take-append-drop (suc n) (x ∷ l) = ap (◌∷◌ x) (take-append-drop n l)

  -- An item put in the place of another, which takes its place at the front.
  pub set-perm :
      (x y : A) (l : List A) (i : ℕ) → get_elem? l i ≡ some y → Perm (y ∷ set l i x) (x ∷ l)
  set-perm x y [] i e = cc
  set-perm x y (z ∷ l) zero e = let same : z ≡ y = (cc) in rw same (Perm.swap x y l)
  set-perm x y (z ∷ l) (suc i) e =
      Perm.trans (Perm.swap z y (set l i x))
        (Perm.trans (Perm.cons z (set-perm x y l i e)) (Perm.swap x z l))

  module _ (less : A → A → Bool) where
    -- What `less` is to be: a strict order in which not coming before is transitive.
    pub record IsStrictWeak : Type 0 where
      pub irreflexive : (a : A) → less a a ≡ false
      pub transitive : (a b c : A) → less a b ≡ true → less b c ≡ true → less a c ≡ true
      pub weak : (a b c : A) → less a b ≡ false → less b c ≡ false → less a c ≡ false

    abbrev pub NotBefore : A → A → Type 0
    NotBefore a b = less b a ≡ false

    -- No item is to come before one that stands before it.
    abbrev pub Ordered : List A → Type 0
    Ordered [] = Unit {0}
    Ordered (x ∷ l) = All (NotBefore x) l × Ordered l

    -- No item of the second list is to come before one of the first.
    abbrev pub Ahead : List A → List A → Type 0
    Ahead l m = All (λ a. All (NotBefore a) m) l

    pub Ordered-snoc :
        (l : List A) (y : A) → Ordered l → All (λ a. NotBefore a y) l → Ordered (l ++ (y ∷ []))
    Ordered-snoc [] y h k = (tt, tt)
    Ordered-snoc (x ∷ l) y h k =
        (All-append (NotBefore x) l (y ∷ []) h.0 (k.0, tt), Ordered-snoc l y h.1 k.1)

    pub take-Ordered : (n : ℕ) (l : List A) → Ordered l → Ordered (take n l)
    take-Ordered zero l h = tt
    take-Ordered (suc n) [] h = tt
    take-Ordered (suc n) (x ∷ l) h = (All-take (NotBefore x) n l h.0, take-Ordered n l h.1)

    pub take-Ahead : (n : ℕ) (l : List A) → Ordered l → Ahead (take n l) (drop n l)
    take-Ahead zero l h = tt
    take-Ahead (suc n) [] h = tt
    take-Ahead (suc n) (x ∷ l) h = (All-drop (NotBefore x) n l h.0, take-Ahead n l h.1)
