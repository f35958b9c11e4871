-- ===== src/Sketch/Merges.antt =====
-- sketch/sketch.go: Merge and Reset, against calls of Add on one sketch.
use mathlib.Core.Path.{subst}
use yakutil.Base.{
  ℕ, zero, suc, ◌+◌, ◌≡◌, refl, sym, ◌∙◌, ap, some, List, [], ◌∷◌, ◌++◌, arith, ◌==◌, ==_iff, true,
  length, map, get_or,
}
use yakutil.Base.Int.{ℤ, pos}
use yakutil.Sketch.Counters.{Cms, new_sized, or_default, merge, merge_rows, reset, ◌+ℤ◌}
use yakutil.Sketch.Rows.{Adds, landed, Holds, merge_rows-Holds, Holds-eq}
use yakutil.Sketch.Fills.{
  run, amount, laid, laid-append, landed-laid, Filled, new-Filled, run-Filled,
}

amount-append : {K : Type 0} (a b : List (K × ℕ)) → amount (a ++ b) ≡ amount a + amount b
unfolding amount
amount-append [] b = omega arith
amount-append ((k, n) ∷ a) b = omega (arith, amount-append a b)

-- What the calls have added determines the sketch.
Filled-eq :
    {w d total : ℕ} {l : Adds} (c c' : Cms) → Filled w d l total c → Filled w d l total c' → c ≡ c'
Filled-eq {w} {d} {total} {l} c c' f g =
    let seeds : c.seeds ≡ c'.seeds = f.seeds ∙ sym g.seeds in
    let rows : c.table ≡ c'.table =
      Holds-eq w 0 l c.table c'.table c.seeds f.holds
        (subst (λ x. Holds w l 0 c'.table x) (sym seeds) g.holds) in
    let width : c.w ≡ c'.w = f.width ∙ sym g.width in
    let depth : c.d ≡ c'.d = f.depth ∙ sym g.depth in
    let all : c.total ≡ c'.total = f.all ∙ sym g.all in
    λ i. record { w = width i; d = depth i; table = rows i; seeds = seeds i; total = all i }

module _ {K : Type 0} (sum : K → ℕ) where
  -- Merge of two sketches that NewSized makes with the same arguments, after calls of Add on each,
  -- with counts that are not negative, is the sketch after all the calls, those on the first one
  -- before those on the second.
  pub run-merge :
      (w d : ℕ) (a b : List (K × ℕ))
      → (c : Cms) × (c' : Cms) × (c'' : Cms) × (run sum (new_sized w d) a ≡ some c)
        × (run sum (new_sized w d) b ≡ some c')
        × (merge c c' ≡ some c'')
        × (run sum (new_sized w d) (a ++ b) ≡ some c'')
  unfolding merge
  run-merge w d a b =
      let w' = or_default w 2048 in
      let d' = or_default d 4 in
      let start = new-Filled sum w d in
      let (c, did, f) = run-Filled sum w' d' 0 [] (new_sized w d) a start in
      let (c', did', g) = run-Filled sum w' d' 0 [] (new_sized w d) b start in
      let (c'', did'', h) = run-Filled sum w' d' 0 [] (new_sized w d) (a ++ b) start in
      let joined : Cms = record c {
        table = merge_rows c.table c'.table;
        total = c.total +ℤ c'.total;
      } in
      let seeds : c'.seeds ≡ c.seeds = g.seeds ∙ sym f.seeds in
      let good : Filled w' d' (laid sum [] (a ++ b)) (0 + amount (a ++ b)) joined = record {
        width = f.width;
        depth = f.depth;
        wide = f.wide;
        holds =
            merge_rows-Holds w' 0 (laid sum [] a) (laid sum [] b) (laid sum [] (a ++ b)) c.table
              c'.table c.seeds
              (λ i s j.
                ap (landed w' i s j) (laid-append sum a b [])
                ∙ landed-laid sum w' i s j b (laid sum [] a))
              f.holds (subst (λ x. Holds w' (laid sum [] b) 0 c'.table x) seeds g.holds);
        seeds = f.seeds;
        all = rw (f.all, g.all) (ap pos (omega (arith, amount-append a b)));
      } in
      let widths : (c.w == c'.w) ≡ true = (==_iff _ _).1 (f.width ∙ sym g.width) in
      let depths : (c.d == c'.d) ≡ true = (==_iff _ _).1 (f.depth ∙ sym g.depth) in
      (c, c', c'', did, did', rw (widths, depths) (ap some (Filled-eq joined c'' good h)), did'')

zero_row : (row : List ℤ) (j : ℕ) → get_or (map (λ x. pos 0) row) j (pos 0) ≡ pos 0
zero_row [] j = refl
zero_row (x ∷ row) zero = refl
zero_row (x ∷ row) (suc j) = zero_row row j

length-zero_row : (row : List ℤ) → length (map (λ (x : ℤ). pos 0) row) ≡ length row
length-zero_row [] = refl
length-zero_row (x ∷ row) = ap suc (length-zero_row row)

reset-Holds :
    (w i : ℕ) (l : Adds) (rows : List (List ℤ)) (seeds : List ℕ)
    → Holds w l i rows seeds
    → Holds w [] i (map (map (λ x. pos 0)) rows) seeds
unfolding landed
reset-Holds w i l [] [] g = tt
reset-Holds w i l [] (s ∷ seeds) g = absurd g
reset-Holds w i l (r ∷ rows) [] g = absurd g
reset-Holds w i l (r ∷ rows) (s ∷ seeds) g =
    (length-zero_row r ∙ g.0, (λ j lt. zero_row r j), reset-Holds w (suc i) l rows seeds g.2)

-- Reset after calls of Add with counts that are not negative gives the sketch that NewSized makes.
pub run-reset :
    {K : Type 0} (sum : K → ℕ) (w d : ℕ) (cs : List (K × ℕ))
    → (c : Cms) × (run sum (new_sized w d) cs ≡ some c) × (reset c ≡ new_sized w d)
unfolding reset
run-reset sum w d cs =
    let w' = or_default w 2048 in
    let d' = or_default d 4 in
    let (c, did, f) = run-Filled sum w' d' 0 [] (new_sized w d) cs (new-Filled sum w d) in
    (
      c,
      did,
      Filled-eq (record c { table = map (map (λ x. pos 0)) c.table; total = pos 0 }) (new_sized w d)
          (record {
            width = f.width;
            depth = f.depth;
            wide = f.wide;
            holds = reset-Holds w' 0 (laid sum [] cs) c.table c.seeds f.holds;
            seeds = f.seeds;
            all = refl;
          })
          (new-Filled sum w d),
    )
