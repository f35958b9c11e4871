-- ===== src/Sketch/Estimates.antt =====
-- sketch/sketch.go: what Count says of a key after calls of Add, and what Merge makes of two sketches.
use mathlib.Core.Logic.{ite, if_pos, if_neg}
use yakutil.Base.{
  ℕ, suc, ◌+◌, ◌<◌, ◌≤◌, ◌^◌, ◌≡◌, refl, ◌∙◌, ap, some, List, [], ◌∷◌, arith, ltb, if◌then◌else◌,
  length, Bool-cases, inl, inr, ==_iff,
}
use yakutil.Base.Int.{ℤ, pos}
use yakutil.Sketch.Counters.{Cms, new_sized, or_default, hash_idx, least_row, count, max_int64}
use yakutil.Sketch.Fills.{
  run, amount, laid, Filled, new-Filled, run-Filled, landed-amount, landed_none, Holds-length,
  length-seeds_from,
}
use yakutil.Sketch.Rows.{Adds, landed, Holds, hash_idx-lt, cell}

module _ (w h : ℕ) (l : Adds) (t top : ℕ) where
  -- The least counter of a key lies between bounds of all of them.
  least_row-bounds :
      (i m : ℕ) (rows : List (List ℤ)) (seeds : List ℕ)
      → 0 < w
      → Holds w l i rows seeds
      → ((i s : ℕ)
          → (t ≤ landed w i s (hash_idx w h i s) l) × (landed w i s (hash_idx w h i s) l ≤ top))
      → t ≤ m
      → (n : ℕ) × (least_row w h i (pos m) rows seeds ≡ some (pos n))
        × (t ≤ n)
        × (n ≤ m)
        × (0 < length rows → n ≤ top)
  unfolding least_row
  least_row-bounds i m [] [] some_w g b low = (m, refl, low, omega arith, λ p. absurd (omega arith))
  least_row-bounds i m [] (s ∷ seeds) some_w g b low = absurd g
  least_row-bounds i m (row ∷ rows) [] some_w g b low = absurd g
  least_row-bounds i m (row ∷ rows) (s ∷ seeds) some_w g b low =
      let idx = hash_idx w h i s in
      let lt : idx < w = hash_idx-lt w h i s some_w in
      let x = landed w i s idx l in
      let m' = if ltb x m then x else m in
      let bounds : (t ≤ m') × (m' ≤ m) × (m' ≤ x) = let both = b i s in ground arith in
      let (n, e, above, below, within) =
        least_row-bounds (suc i) m' rows seeds some_w g.2 b bounds.0 in
      (
        n,
        rw (cell w row idx g.0 lt, g.1 idx lt) (step x ∙ e),
        above,
        omega arith,
        λ p. omega (arith, (b i s).1),
      )
    where
      step :
          (x : ℕ)
          → least_row w h (suc i) (if ltb x m then pos x else pos m) rows seeds
            ≡ least_row w h (suc i) (pos (if ltb x m then x else m)) rows seeds
      step x = elim (Bool-cases (ltb x m)) [ inl e ↦ rw e refl | inr e ↦ rw e refl ]

-- What calls of Add add to a key.
unfoldable pub truth : {K : Type 0} → Discrete K → K → List (K × ℕ) → ℕ
truth dec k [] = 0
truth dec k ((j, n) ∷ cs) = ite (dec j k) n 0 + truth dec k cs

module _ {K : Type 0} (dec : Discrete K) (sum : K → ℕ) where
  own-le-landed :
      (w i s : ℕ) (k j : K) (n : ℕ) (l : Adds)
      → ite (dec j k) n 0 + landed w i s (hash_idx w (sum k) i s) l
        ≤ landed w i s (hash_idx w (sum k) i s) ((sum j, n) ∷ l)
  unfolding landed
  own-le-landed w i s k j n l = elim (dec j k) [
    | yes p ↦
        let same : hash_idx w (sum j) i s ≡ hash_idx w (sum k) i s =
          ap (λ x. hash_idx w (sum x) i s) p in
        rw (if_pos _ p, (==_iff _ _).1 same) (omega arith)
    | no p ↦ rw (if_neg _ p) (omega arith)
  ]

  -- A counter of a key holds what is added to the key, and no more than what is added in all.
  landed-truth :
      (w i s : ℕ) (k : K) (cs : List (K × ℕ)) (l : Adds)
      → truth dec k cs + landed w i s (hash_idx w (sum k) i s) l
        ≤ landed w i s (hash_idx w (sum k) i s) (laid sum l cs)
  unfolding truth laid
  landed-truth w i s k [] l = omega arith
  landed-truth w i s k ((j, n) ∷ cs) l =
      omega (arith, own-le-landed w i s k j n l, landed-truth w i s k cs ((sum j, n) ∷ l))

  truth-le-amount : (k : K) (cs : List (K × ℕ)) → truth dec k cs ≤ amount cs
  unfolding truth amount
  truth-le-amount k [] = omega arith
  truth-le-amount k ((j, n) ∷ cs) = ground (arith, truth-le-amount k cs)

  count-bounds :
      (w d total t top : ℕ) (l : Adds) (c : Cms) (k : K)
      → Filled w d l total c
      → 0 < d
      → t ≤ max_int64
      → ((i s : ℕ)
          → (t ≤ landed w i s (hash_idx w (sum k) i s) l)
            × (landed w i s (hash_idx w (sum k) i s) l ≤ top))
      → (n : ℕ) × (count sum c k ≡ some (pos n)) × (t ≤ n) × (n ≤ top)
  unfolding count
  count-bounds w d total t top l c k f deep small b =
      let (n, e, above, below, within) =
        least_row-bounds w (sum k) l t top 0 max_int64 c.table c.seeds f.wide f.holds b small in
      let same : least_row c.w (sum k) 0 (pos max_int64) c.table c.seeds ≡ some (pos n) =
        ap (λ x. least_row x (sum k) 0 (pos max_int64) c.table c.seeds) f.width ∙ e in
      let rows : length c.table ≡ d =
        Holds-length w 0 l c.table c.seeds f.holds ∙ (ap length f.seeds ∙ length-seeds_from d 0) in
      (n, rw same refl, above, within (omega arith))

  -- NewSized, and calls of Add with counts that are not negative and make less than 2^63 in all: Count
  -- of any key is then no less than what was added to it, and no more than was added in all, which is
  -- the total.
  pub run-count :
      (w d : ℕ) (cs : List (K × ℕ)) (k : K)
      → amount cs < 2 ^ 63
      → (c : Cms) × (n : ℕ) × (run sum (new_sized w d) cs ≡ some c)
        × (count sum c k ≡ some (pos n))
        × (truth dec k cs ≤ n)
        × (n ≤ amount cs)
        × (c.total ≡ pos (amount cs))
  run-count w d cs k small =
      let w' = or_default w 2048 in
      let d' = or_default d 4 in
      let (c, did, f) = run-Filled sum w' d' 0 [] (new_sized w d) cs (new-Filled sum w d) in
      let deep : 0 < d' = unfold or_default in ground arith in
      let (n, e, low, high) =
        count-bounds w' d' (0 + amount cs) (truth dec k cs) (amount cs) (laid sum [] cs) c k f deep
          (omega (arith, truth-le-amount k cs))
          (λ i s. (
            omega (arith, landed-truth w' i s k cs []),
            omega (
              arith,
              landed-amount sum w' i s (hash_idx w' (sum k) i s) cs [],
              landed_none w' i s (hash_idx w' (sum k) i s),
            ),
          )) in
      let same : 0 + amount cs ≡ amount cs = omega arith in
      (c, n, did, e, low, high, f.all ∙ ap pos same)
