-- ===== src/Sketch/Fills.antt =====
-- sketch/sketch.go: the sketch after calls of Add, one after another.
use yakutil.Base.{
  ℕ, zero, suc, ◌+◌, ◌<◌, ◌≤◌, ◌≡◌, refl, ◌∙◌, ap, Option, some, List, [], ◌∷◌, ◌++◌, arith, ◌>>=◌,
  length,
}
use yakutil.Base.Int.{ℤ, pos}
use yakutil.Sketch.Counters.{Cms, new_sized, or_default, add_rows, add, seeds_from, ◌+ℤ◌}
use yakutil.Sketch.Rows.{Adds, landed, Holds, zeros-Holds, add_rows-Holds}

unfoldable pub amount : {K : Type 0} → List (K × ℕ) → ℕ
amount [] = 0
amount ((j, n) ∷ cs) = n + amount cs

-- The counters hold what the calls have added.
pub record Filled (w d : ℕ) (l : Adds) (total : ℕ) (c : Cms) : Type 0 where
  pub width : c.w ≡ w
  pub depth : c.d ≡ d
  pub wide : 0 < w
  pub holds : Holds w l 0 c.table c.seeds
  pub seeds : c.seeds ≡ seeds_from d 0
  pub all : c.total ≡ pos total

pub landed_none : (w i s j : ℕ) → landed w i s j [] ≡ 0
unfolding landed
landed_none w i s j = refl

pub Holds-length :
    (w i : ℕ) (l : Adds) (rows : List (List ℤ)) (seeds : List ℕ)
    → Holds w l i rows seeds
    → length rows ≡ length seeds
Holds-length w i l [] [] g = refl
Holds-length w i l [] (s ∷ seeds) g = absurd g
Holds-length w i l (r ∷ rows) [] g = absurd g
Holds-length w i l (r ∷ rows) (s ∷ seeds) g = ap suc (Holds-length w (suc i) l rows seeds g.2)

pub length-seeds_from : (d i : ℕ) → length (seeds_from d i) ≡ d
unfolding seeds_from
length-seeds_from zero i = refl
length-seeds_from (suc d) i = ap suc (length-seeds_from d (suc i))

module _ {K : Type 0} (sum : K → ℕ) where
  -- calls of Add, one after another, with counts that are not negative
  unfoldable pub run : Cms → List (K × ℕ) → Option Cms
  run c [] = some c
  run c ((k, n) ∷ cs) = add sum c k (pos n) >>= λ c'. run c' cs

  unfoldable pub laid : Adds → List (K × ℕ) → Adds
  laid l [] = l
  laid l ((k, n) ∷ cs) = laid ((sum k, n) ∷ l) cs

  pub new-Filled : (w d : ℕ) → Filled (or_default w 2048) (or_default d 4) [] 0 (new_sized w d)
  unfolding new_sized
  new-Filled w d = record {
    width = refl;
    depth = refl;
    wide = unfold or_default in ground arith;
    holds = zeros-Holds (or_default w 2048) (or_default d 4) 0;
    seeds = refl;
    all = refl;
  }

  pub add-Filled :
      {w d total : ℕ} {l : Adds} (c : Cms) (k : K) (n : ℕ)
      → Filled w d l total c
      → (c' : Cms) × (add sum c k (pos n) ≡ some c') × Filled w d ((sum k, n) ∷ l) (total + n) c'
  unfolding add
  add-Filled {w} {d} {total} {l} c k n f =
      let (t, did, good) = add_rows-Holds w (sum k) n 0 l c.table c.seeds f.wide f.holds in
      let same : add_rows c.w (sum k) (pos n) 0 c.table c.seeds ≡ some t =
        ap (λ x. add_rows x (sum k) (pos n) 0 c.table c.seeds) f.width ∙ did in
      (
        record c { table = t; total = c.total +ℤ pos n },
        rw same refl,
        record {
          width = f.width;
          depth = f.depth;
          wide = f.wide;
          holds = good;
          seeds = f.seeds;
          all = ap (λ x. x +ℤ pos n) f.all;
        },
      )

  pub run-Filled :
      (w d total : ℕ) (l : Adds) (c : Cms) (cs : List (K × ℕ))
      → Filled w d l total c
      → (c' : Cms) × (run c cs ≡ some c') × Filled w d (laid l cs) (total + amount cs) c'
  unfolding run laid amount
  run-Filled w d total l c [] f = let same : total + 0 ≡ total = omega arith in (c, refl, rw same f)
  run-Filled w d total l c ((k, n) ∷ cs) f =
      let (c', did, g) = add-Filled c k n f in
      let (c'', rest, end) = run-Filled w d (total + n) ((sum k, n) ∷ l) c' cs g in
      let same : total + (n + amount cs) ≡ total + n + amount cs = omega arith in
      (c'', rw (did) rest, rw same end)

  pub landed-amount :
      (w i s j : ℕ) (cs : List (K × ℕ)) (l : Adds)
      → landed w i s j (laid l cs) ≤ landed w i s j l + amount cs
  unfolding laid amount landed
  landed-amount w i s j [] l = omega arith
  landed-amount w i s j ((k, n) ∷ cs) l = ground (arith, landed-amount w i s j cs ((sum k, n) ∷ l))

  -- More calls after some count as much as on their own.
  pub landed-laid :
      (w i s j : ℕ) (cs : List (K × ℕ)) (l : Adds)
      → landed w i s j (laid l cs) ≡ landed w i s j l + landed w i s j (laid [] cs)
  unfolding laid landed
  landed-laid w i s j [] l = omega arith
  landed-laid w i s j ((k, n) ∷ cs) l =
      omega
        (arith, landed-laid w i s j cs ((sum k, n) ∷ l), landed-laid w i s j cs ((sum k, n) ∷ []))

  pub laid-append : (a b : List (K × ℕ)) (l : Adds) → laid l (a ++ b) ≡ laid (laid l a) b
  unfolding laid
  laid-append [] b l = refl
  laid-append ((k, n) ∷ a) b l = laid-append a b ((sum k, n) ∷ l)
