-- ===== src/Sketch/Rows.antt =====
-- sketch/sketch.go: each counter is the sum of what the calls of Add with its column have added.
use mathlib.Core.Path.{ap₂}
use native.Mathlib.Nat.{mod-lt}
use yakutil.Base.{
  ℕ, zero, suc, ◌+◌, ◌<◌, ◌≡◌, refl, sym, ◌∙◌, ap, none, some, List, [], ◌∷◌, arith, ltb, ◌==◌,
  if◌then◌else◌, get_elem?, get_or, set, replicate, length, length-set, length-replicate,
  get_or-set, get_elem?-get_or, lt→ltb, List-ext, Bool-cases, ==_iff, ◌⊎◌, inl, inr, true, false,
}
use yakutil.Base.Int.{ℤ, pos}
use yakutil.Sketch.Counters.{hash_idx, add_rows, merge_row, merge_rows, seeds_from, ◌+ℤ◌}

-- Calls of Add, the last one first, by the hash of the key, with counts that are not negative.
abbrev pub Adds : Type 0
Adds = List (ℕ × ℕ)

-- What they have added to column `j` of row `i`.
unfoldable pub landed : ℕ → ℕ → ℕ → ℕ → Adds → ℕ
landed w i seed j [] = 0
landed w i seed j ((h, n) ∷ l) = (if hash_idx w h i seed == j then n else 0) + landed w i seed j l

module _ (w : ℕ) where
  -- The rows from row `i` on, with their seeds.
  abbrev pub Holds : Adds → ℕ → List (List ℤ) → List ℕ → Type 0
  Holds l i [] [] = Unit {0}
  Holds l i [] (s ∷ seeds) = ⊥
  Holds l i (row ∷ rows) [] = ⊥
  Holds l i (row ∷ rows) (s ∷ seeds) =
      (length row ≡ w)
      × ((j : ℕ) → j < w → get_or row j (pos 0) ≡ pos (landed w i s j l))
      × Holds l (suc i) rows seeds

  get_or-zeros : (n j : ℕ) → get_or (replicate n (pos 0)) j (pos 0) ≡ pos 0
  get_or-zeros zero j = refl
  get_or-zeros (suc n) zero = refl
  get_or-zeros (suc n) (suc j) = get_or-zeros n j

  pub zeros-Holds : (d i : ℕ) → Holds [] i (replicate d (replicate w (pos 0))) (seeds_from d i)
  unfolding seeds_from landed
  zeros-Holds zero i = tt
  zeros-Holds (suc d) i =
      (length-replicate w (pos 0), (λ j lt. get_or-zeros w j), zeros-Holds d (suc i))

  pub hash_idx-lt : (h i s : ℕ) → 0 < w → hash_idx w h i s < w
  unfolding hash_idx
  hash_idx-lt h i s pos_w = mod-lt _ pos_w

  pub cell :
      (row : List ℤ) (j : ℕ)
      → length row ≡ w
      → j < w
      → get_elem? row j ≡ some (get_or row j (pos 0))
  cell row j size lt = get_elem?-get_or row j (pos 0) ∙ within
    where
      within :
          (if ltb j (length row) then some (get_or row j (pos 0)) else none)
          ≡ some (get_or row j (pos 0))
      within = rw (size, lt→ltb j w lt) refl

  -- One counter of a row raised.
  bumped :
      (row : List ℤ) (idx j n : ℕ) (f : ℕ → ℕ)
      → length row ≡ w
      → idx < w
      → j < w
      → ((k : ℕ) → k < w → get_or row k (pos 0) ≡ pos (f k))
      → get_or (set row idx (get_or row idx (pos 0) +ℤ pos n)) j (pos 0)
        ≡ pos ((if idx == j then n else 0) + f j)
  bumped row idx j n f size lt below h =
      get_or-set row idx (get_or row idx (pos 0) +ℤ pos n) j (pos 0) (omega arith)
      ∙ go (Bool-cases (idx == j))
    where
      go :
          ((idx == j) ≡ true) ⊎ ((idx == j) ≡ false)
          → (if idx == j then get_or row idx (pos 0) +ℤ pos n else get_or row j (pos 0))
            ≡ pos ((if idx == j then n else 0) + f j)
      go (inl e) = rw (e, h idx lt) (ap pos (omega (arith, ap f ((==_iff idx j).0 e))))
      go (inr e) = rw (e, h j below) (ap pos (omega arith))

  pub add_rows-Holds :
      (h n i : ℕ) (l : Adds) (rows : List (List ℤ)) (seeds : List ℕ)
      → 0 < w
      → Holds l i rows seeds
      → (rows' : List (List ℤ)) × (add_rows w h (pos n) i rows seeds ≡ some rows')
        × Holds ((h, n) ∷ l) i rows' seeds
  unfolding add_rows landed
  add_rows-Holds h n i l [] [] some_w g = ([], refl, tt)
  add_rows-Holds h n i l [] (s ∷ seeds) some_w g = absurd g
  add_rows-Holds h n i l (row ∷ rows) [] some_w g = absurd g
  add_rows-Holds h n i l (row ∷ rows) (s ∷ seeds) some_w g =
      let idx = hash_idx w h i s in
      let lt : idx < w = hash_idx-lt h i s some_w in
      let x = get_or row idx (pos 0) in
      let (rest, did, good) = add_rows-Holds h n (suc i) l rows seeds some_w g.2 in
      (
        set row idx (x +ℤ pos n) ∷ rest,
        rw (cell row idx g.0 lt, did) refl,
        (
          length-set row idx (x +ℤ pos n) ∙ g.0,
          (λ j below. bumped row idx j n (λ k. landed w i s k l) g.0 lt below g.1),
          good,
        ),
      )

  merge_row-get_or :
      (a b : List ℤ) (j : ℕ)
      → length a ≡ length b
      → get_or (merge_row a b) j (pos 0) ≡ get_or a j (pos 0) +ℤ get_or b j (pos 0)
  unfolding merge_row
  merge_row-get_or [] [] j e = refl
  merge_row-get_or [] (y ∷ b) j e = absurd (omega arith)
  merge_row-get_or (x ∷ a) [] j e = absurd (omega arith)
  merge_row-get_or (x ∷ a) (y ∷ b) zero e = refl
  merge_row-get_or (x ∷ a) (y ∷ b) (suc j) e = merge_row-get_or a b j (omega arith)

  length-merge_row : (a b : List ℤ) → length (merge_row a b) ≡ length a
  unfolding merge_row
  length-merge_row [] b = refl
  length-merge_row (x ∷ a) [] = refl
  length-merge_row (x ∷ a) (y ∷ b) = ap suc (length-merge_row a b)

  pub merge_rows-Holds :
      (i : ℕ) (a b l : Adds) (rows others : List (List ℤ)) (seeds : List ℕ)
      → ((i s j : ℕ) → landed w i s j l ≡ landed w i s j a + landed w i s j b)
      → Holds a i rows seeds
      → Holds b i others seeds
      → Holds l i (merge_rows rows others) seeds
  unfolding merge_rows
  merge_rows-Holds i a b l [] [] [] e g h = tt
  merge_rows-Holds i a b l [] [] (s ∷ seeds) e g h = absurd g
  merge_rows-Holds i a b l [] (o ∷ others) [] e g h = absurd h
  merge_rows-Holds i a b l [] (o ∷ others) (s ∷ seeds) e g h = absurd g
  merge_rows-Holds i a b l (r ∷ rows) others [] e g h = absurd g
  merge_rows-Holds i a b l (r ∷ rows) [] (s ∷ seeds) e g h = absurd h
  merge_rows-Holds i a b l (r ∷ rows) (o ∷ others) (s ∷ seeds) e g h = (
    length-merge_row r o ∙ g.0,
    (λ j lt. rw (merge_row-get_or r o j (g.0 ∙ sym h.0), g.1 j lt, h.1 j lt, e i s j) refl),
    merge_rows-Holds (suc i) a b l rows others seeds e g.2 h.2,
  )

  -- The rows are determined by the calls.
  pub Holds-eq :
      (i : ℕ) (l : Adds) (rows others : List (List ℤ)) (seeds : List ℕ)
      → Holds l i rows seeds
      → Holds l i others seeds
      → rows ≡ others
  Holds-eq i l [] [] seeds g h = refl
  Holds-eq i l [] (o ∷ others) [] g h = absurd h
  Holds-eq i l [] (o ∷ others) (s ∷ seeds) g h = absurd g
  Holds-eq i l (r ∷ rows) others [] g h = absurd g
  Holds-eq i l (r ∷ rows) [] (s ∷ seeds) g h = absurd h
  Holds-eq i l (r ∷ rows) (o ∷ others) (s ∷ seeds) g h =
      ap₂ ◌∷◌
        (List-ext (pos 0) r o (g.0 ∙ sym h.0)
          (λ j lt. let below : j < w = omega (arith, g.0) in g.1 j below ∙ sym (h.1 j below)))
        (Holds-eq (suc i) l rows others seeds g.2 h.2)
