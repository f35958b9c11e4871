-- ===== src/Topn/Best.antt =====
-- topn/topn.go: each round of the selection moves the best of what is left to its front.
use yakutil.Base.{
  ℕ, suc, ◌+◌, ◌≤◌, ◌≡◌, refl, sym, ◌∙◌, ap, Bool, true, false, some, List, [], ◌∷◌, ◌++◌, arith,
  length, get_elem?, set, drop, if◌then◌else◌, Bool-cases, inl, inr,
}
use yakutil.Topn.Select.{scan}
use yakutil.Topn.Orders.{All, IsStrictWeak, NotBefore}

module _ {A : Type 0} where
  pub get_elem?-append : (l m : List A) (i : ℕ) → get_elem? (l ++ m) (length l + i) ≡ get_elem? m i
  get_elem?-append [] m i = let e : 0 + i ≡ i = omega arith in rw e refl
  get_elem?-append (x ∷ l) m i =
      let e : suc (length l) + i ≡ suc (length l + i) = omega arith in rw e (get_elem?-append l m i)

  pub set-append : (l m : List A) (i : ℕ) (x : A) → set (l ++ m) (length l + i) x ≡ l ++ set m i x
  set-append [] m i x = let e : 0 + i ≡ i = omega arith in rw e refl
  set-append (y ∷ l) m i x =
      let e : suc (length l) + i ≡ suc (length l + i) = omega arith in
      rw e (ap (◌∷◌ y) (set-append l m i x))

  pub drop-append : (l : List A) (x : A) (m : List A) → drop (suc (length l)) (l ++ (x ∷ m)) ≡ m
  drop-append [] x m = refl
  drop-append (y ∷ l) x m = drop-append l x m

module _ {A : Type 0} (less : A → A → Bool) where
  -- the value that the scan ends at
  pub best_of : A → List A → A
  best_of x [] = x
  best_of x (y ∷ l) = best_of (if less y x then y else x) l

  pub scan-best_of :
      (dst l : List A) (x : A) (b j : ℕ)
      → get_elem? dst b ≡ some x
      → ((k : ℕ) → get_elem? dst (j + k) ≡ get_elem? l k)
      → get_elem? dst (scan less x b j l) ≡ some (best_of x l)
  unfolding scan best_of
  scan-best_of dst [] x b j e h = e
  scan-best_of dst (y ∷ l) x b j e h =
      scan-best_of dst l (if less y x then y else x) (if less y x then j else b) (suc j)
        (at (less y x)) next
    where
      at : (t : Bool) → get_elem? dst (if t then j else b) ≡ some (if t then y else x)
      at true = let here : j + 0 ≡ j = omega arith in ap (get_elem? dst) (sym here) ∙ h 0
      at false = e

      next : (k : ℕ) → get_elem? dst (suc j + k) ≡ get_elem? l k
      next k = let same : suc j + k ≡ j + suc k = omega arith in rw same (h (suc k))

  pub scan-from : (l : List A) (x : A) (i b j : ℕ) → i ≤ b → i ≤ j → i ≤ scan less x b j l
  unfolding scan
  scan-from [] x i b j h k = h
  scan-from (y ∷ l) x i b j h k =
      scan-from l (if less y x then y else x) i (if less y x then j else b) (suc j) (at (less y x))
        (omega arith)
    where
      at : (t : Bool) → i ≤ (if t then j else b)
      at true = k
      at false = h

  module _ (order : IsStrictWeak less) where
    -- What does not come before the best so far does not come before a better one.
    worse : (w x y : A) → less w x ≡ false → less y x ≡ true → less w y ≡ false
    worse w x y h k = elim (Bool-cases (less w y)) [
      | inl e ↦ let through : less w x ≡ true = order.transitive w y x e k in cc
      | inr e ↦ e
    ]

    best_of_kept : (l : List A) (x w : A) → less w x ≡ false → less w (best_of x l) ≡ false
    unfolding best_of
    best_of_kept [] x w h = h
    best_of_kept (y ∷ l) x w h = best_of_kept l (if less y x then y else x) w (at (less y x) refl)
      where
        at : (t : Bool) → less y x ≡ t → less w (if t then y else x) ≡ false
        at true e = worse w x y h e
        at false e = h

    pub best_of_lem : (l : List A) (x : A) → All (NotBefore less (best_of x l)) (x ∷ l)
    unfolding best_of
    best_of_lem [] x = (order.irreflexive x, tt)
    best_of_lem (y ∷ l) x = go (less y x) refl (best_of_lem l)
      where
        go :
            (t : Bool)
            → less y x ≡ t
            → ((z : A) → All (NotBefore less (best_of z l)) (z ∷ l))
            → All (NotBefore less (best_of (if t then y else x) l)) (x ∷ y ∷ l)
        go true e ih = (best_of_kept l y x (worse x x y (order.irreflexive x) e), ih y)
        go false e ih = ((ih x).0, (best_of_kept l x y e, (ih x).1))
