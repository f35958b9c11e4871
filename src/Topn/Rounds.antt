-- ===== src/Topn/Rounds.antt =====
-- topn/topn.go: the selection leaves the first n items in order at the front.
use mathlib.Core.List.Perm
use mathlib.Core.List.{Perm, append_assoc}
use yakutil.Base.{
  ℕ, zero, suc, ◌+◌, ◌-◌, ◌≤◌, ◌≡◌, refl, sym, ◌∙◌, ap, Bool, Option, some, List, [], ◌∷◌, ◌++◌,
  arith, length, get_elem?, set, length-append, length-set,
}
use yakutil.Topn.Select.{scan, swap, select}
use yakutil.Topn.Orders.{
  All, All-get, All-set, All-append, set-perm, IsStrictWeak, NotBefore, Ordered, Ahead,
  Ordered-snoc,
}
use yakutil.Topn.Best.{
  get_elem?-append, set-append, drop-append, best_of, scan-best_of, scan-from, best_of_lem,
}

swap_lem :
    {A : Type 0} (front : List A) (x : A) (l : List A) (c : ℕ) (y : A)
    → get_elem? (x ∷ l) c ≡ some y
    → swap (front ++ (x ∷ l)) (length front) (length front + c) ≡ some (front ++ set (y ∷ l) c x)
unfolding swap
swap_lem front x l c y e =
    let start : length front + 0 ≡ length front = omega arith in
    let at_x : get_elem? (front ++ (x ∷ l)) (length front) ≡ some x =
      rw⁻¹ start (get_elem?-append front (x ∷ l) 0) in
    let put : set (front ++ (x ∷ l)) (length front) y ≡ front ++ (y ∷ l) =
      rw⁻¹ start (set-append front (x ∷ l) 0 y) in
    rw (at_x, get_elem?-append front (x ∷ l) c, e, put, set-append front (y ∷ l) c x) refl

module _ {A : Type 0} (less : A → A → Bool) (order : IsStrictWeak less) where
  -- The best of the back at its front, before the others of it.
  record Round (front : List A) (x : A) (l : List A) : Type 0 where
    y : A
    rest : List A
    swapped :
        swap (front ++ (x ∷ l)) (length front) (scan less x (length front) (suc (length front)) l)
        ≡ some (front ++ (y ∷ rest))
    best : All (NotBefore less y) rest
    first :
        (b : A) → All (NotBefore less b) (x ∷ l) → NotBefore less b y × All (NotBefore less b) rest
    size : length rest ≡ length l
    same : Perm (y ∷ rest) (x ∷ l)

  Round-of : (front : List A) (x : A) (l : List A) → Round front x l
  Round-of front x l = go (found - n) place at_y
    where
      n : ℕ
      n = length front

      found : ℕ
      found = scan less x n (suc n) l

      place : found ≡ n + (found - n)
      place = omega (arith, scan-from less l x n n (suc n) (omega arith) (omega arith))

      at_x : get_elem? (front ++ (x ∷ l)) n ≡ some x
      at_x = let here : n + 0 ≡ n = omega arith in rw⁻¹ here (get_elem?-append front (x ∷ l) 0)

      at_rest : (k : ℕ) → get_elem? (front ++ (x ∷ l)) (suc n + k) ≡ get_elem? l k
      at_rest k =
          let e : suc n + k ≡ n + suc k = omega arith in
          rw e (get_elem?-append front (x ∷ l) (suc k))

      at_y : get_elem? (x ∷ l) (found - n) ≡ some (best_of less x l)
      at_y =
          sym (get_elem?-append front (x ∷ l) (found - n))
          ∙ (ap (get_elem? (front ++ (x ∷ l))) (sym place)
              ∙ scan-best_of less (front ++ (x ∷ l)) l x n (suc n) at_x at_rest)

      go : (c : ℕ) → found ≡ n + c → get_elem? (x ∷ l) c ≡ some (best_of less x l) → Round front x l
      go zero p e =
          let same : best_of less x l ≡ x = (cc) in
          record {
            y = x;
            rest = l;
            swapped = rw p (swap_lem front x l 0 x refl);
            best = rw⁻¹ same ((best_of_lem less order l x).1);
            first = λ b h. h;
            size = refl;
            same = Perm.refl (x ∷ l);
          }
      go (suc c) p e = record {
        y = best_of less x l;
        rest = set l c x;
        swapped = rw p (swap_lem front x l (suc c) (best_of less x l) e);
        best =
            let h = best_of_lem less order l x in
            All-set (NotBefore less (best_of less x l)) l c x h.1 h.0;
        first = λ b h. (
          All-get (NotBefore less b) (x ∷ l) (suc c) (best_of less x l) h e,
          All-set (NotBefore less b) l c x h.1 h.0,
        );
        size = length-set l c x;
        same = set-perm x (best_of less x l) l c e;
      }

  -- The first `n` chosen: in order, ahead of the others, which are left with them.
  pub record Chosen (n : ℕ) (dst : List A) (result : Option (List A)) : Type 0 where
    pub front : List A
    pub back : List A
    pub found : result ≡ some (front ++ back)
    pub size : length front ≡ n
    pub ordered : Ordered less front
    pub ahead : Ahead less front back
    pub same : Perm (front ++ back) dst

  pub select-Chosen :
      (k : ℕ) (front back : List A)
      → k ≤ length back
      → Ordered less front
      → Ahead less front back
      → Chosen (length front + k) (front ++ back) (select less k (length front) (front ++ back))
  unfolding select
  select-Chosen zero front back h o a = record {
    front = front;
    back = back;
    found = refl;
    size = omega arith;
    ordered = o;
    ahead = a;
    same = Perm.refl (front ++ back);
  }
  select-Chosen (suc k) front [] h o a = absurd (omega arith)
  select-Chosen (suc k) front (x ∷ l) h o a =
      let r = Round-of front x l in
      let grown : length (front ++ (r.y ∷ [])) ≡ suc (length front) =
        omega (arith, length-append front (r.y ∷ [])) in
      let parts = split r.y r.rest front r.first a in
      let rest =
        select-Chosen k (front ++ (r.y ∷ [])) r.rest (omega (arith, r.size))
          (Ordered-snoc less front r.y o parts.0)
          (All-append (λ b. All (NotBefore less b) r.rest) front (r.y ∷ []) parts.1 (r.best, tt)) in
      let joined : (front ++ (r.y ∷ [])) ++ r.rest ≡ front ++ (r.y ∷ r.rest) =
        append_assoc front (r.y ∷ []) r.rest in
      let start : length front + 0 ≡ length front = omega arith in
      let at_x : get_elem? (front ++ (x ∷ l)) (length front) ≡ some x =
        rw⁻¹ start (get_elem?-append front (x ∷ l) 0) in
      let on : select less k (suc (length front)) (front ++ (r.y ∷ r.rest))
          ≡ some (rest.front ++ rest.back) =
        ap (λ m. select less k m (front ++ (r.y ∷ r.rest))) (sym grown)
        ∙ (ap (select less k (length (front ++ (r.y ∷ [])))) (sym joined) ∙ rest.found) in
      record {
        front = rest.front;
        back = rest.back;
        found = rw (at_x, drop-append front x l, r.swapped) on;
        size = omega (arith, rest.size);
        ordered = rest.ordered;
        ahead = rest.ahead;
        same = Perm.trans rest.same (rw joined (Perm.append_left front r.same));
      }
    where
      split :
          (y : A) (m f : List A)
          → ((b : A)
              → All (NotBefore less b) (x ∷ l)
              → NotBefore less b y × All (NotBefore less b) m)
          → Ahead less f (x ∷ l)
          → All (λ b. NotBefore less b y) f × Ahead less f m
      split y m [] g h = (tt, tt)
      split y m (b ∷ f) g h =
          let rest = split y m f g h.1 in (((g b h.0).0, rest.0), ((g b h.0).1, rest.1))
