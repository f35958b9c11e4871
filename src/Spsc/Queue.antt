-- ===== src/Spsc/Queue.antt =====
-- spsc/ring.go: whatever steps the two sides take, the ring serves as a queue.
use mathlib.Core.List.{append_assoc}
use yakutil.Base.{
  some, replicate, length-replicate, ℕ, zero, suc, ◌-◌, ◌^◌, ◌≤◌, ◌<◌, ◌≡◌, ◌*◌, ◌⊎◌, le→ltb, refl,
  sym, ◌∙◌, ap, inl, inr, List, [], ◌∷◌, ◌++◌, ltb, if◌then◌else◌, length, arith,
}
use yakutil.Base.Bits.{two-pow-suc, two-pow-pos}
use yakutil.Spsc.Slots.{
  Ring, at_rest, resting, Event, quiet, refused, empty, pushed, popped, System, Step, starts_push,
  refreshes, writes, publishes, starts_pop, reloads, reads, clears, releases,
}
use yakutil.Base.Doubling.{Rounded, double_while, double_while-Rounded, int_rounds}
use yakutil.Spsc.Slots.{new, sized, Steps, done, after}
use yakutil.Spsc.Invariant.{Serves, Inv, Moved}
use yakutil.Spsc.Pushes.{start_push-Moved, refresh-Moved, write-Moved, publish-Moved}
use yakutil.Spsc.Pops.{start_pop-Moved, reload-Moved, read-Moved, clear-Moved, release-Moved}

-- `New` starts the doubling at 1 and takes two slots at least.
two_at_least :
    (n k : ℕ)
    → n ≤ 2 ^ k
    → k ≤ 62
    → (k ≡ 0) ⊎ (2 ^ k < 2 * n)
    → (m : ℕ) × ((if ltb (2 ^ k) 2 then 2 else 2 ^ k) ≡ 2 ^ m)
      × (m ≤ 62)
      × Rounded 1 n (some (2 ^ m))
two_at_least n zero enough fits least = (
  1,
  refl,
  omega arith,
  record {
    k = 1;
    found = refl;
    from = omega arith;
    fits = omega arith;
    enough = omega arith;
    least = inl refl;
  },
)
two_at_least n (suc k) enough fits least = (
  suc k,
  rw (le→ltb (2 ^ suc k) 2 (omega (arith, two-pow-suc k, two-pow-pos k))) refl,
  fits,
  record {
    k = suc k;
    found = refl;
    from = omega arith;
    fits = fits;
    enough = enough;
    least = elim least [ inl e ↦ absurd (omega arith) | inr less ↦ inr less ];
  },
)

module _ {T : Type 0} where
  -- The events of a queue of at most `n` values, the last one first, from empty to `q`.
  abbrev pub Runs : ℕ → List (Event T) → List T → Type 0
  Runs n [] q = q ≡ []
  Runs n (e ∷ l) q = (before : List T) × Runs n l before × Serves n before e q

  -- The values that have gone in, and those that have come out, the first ones first.
  abbrev pub values_in : List (Event T) → List T
  values_in [] = []
  values_in (quiet ∷ l) = values_in l
  values_in (refused ∷ l) = values_in l
  values_in (empty ∷ l) = values_in l
  values_in (pushed v ∷ l) = values_in l ++ (v ∷ [])
  values_in (popped v ∷ l) = values_in l

  abbrev pub values_out : List (Event T) → List T
  values_out [] = []
  values_out (quiet ∷ l) = values_out l
  values_out (refused ∷ l) = values_out l
  values_out (empty ∷ l) = values_out l
  values_out (pushed v ∷ l) = values_out l
  values_out (popped v ∷ l) = values_out l ++ (v ∷ [])

  Runs-values :
      (n : ℕ) (l : List (Event T)) (q : List T) → Runs n l q → values_in l ≡ values_out l ++ q
  Runs-values n [] q h = sym h
  Runs-values n (quiet ∷ l) q (b, run, h) = rw h (Runs-values n l b run)
  Runs-values n (refused ∷ l) q (b, run, (at, h)) = rw h (Runs-values n l b run)
  Runs-values n (empty ∷ l) q (b, run, (at, h)) = rw h (Runs-values n l b run)
  Runs-values n (pushed v ∷ l) q (b, run, (room, h)) =
      rw (h, Runs-values n l b run) (append_assoc (values_out l) b (v ∷ []))
  Runs-values n (popped v ∷ l) q (b, run, h) =
      Runs-values n l b run
      ∙ (ap (λ x. values_out l ++ x) h ∙ sym (append_assoc (values_out l) (v ∷ []) q))

  abbrev pub at_start : Ring T → System T
  at_start r = record { ring = r; producer = at_rest; consumer = resting }

module _ {T : Type 0} (z : T) where
  Step-Moved :
      (k : ℕ) (s t : System T) (e : Event T) (q : List T)
      → Step z s e t
      → Inv z k s q
      → Moved z k q e t
  Step-Moved k _ _ _ q (starts_push r c v) i = start_push-Moved z k r c v q i
  Step-Moved k _ _ _ q (refreshes r c t v) i = refresh-Moved z k r c t v q i
  Step-Moved k _ _ _ q (writes r c t v) i = write-Moved z k r c t v q i
  Step-Moved k _ _ _ q (publishes r c t v) i = publish-Moved z k r c t v q i
  Step-Moved k _ _ _ q (starts_pop r p) i = start_pop-Moved z k r p q i
  Step-Moved k _ _ _ q (reloads r p h) i = reload-Moved z k r p h q i
  Step-Moved k _ _ _ q (reads r p h) i = read-Moved z k r p h q i
  Step-Moved k _ _ _ q (clears r p h v) i = clear-Moved z k r p h v q i
  Step-Moved k _ _ _ q (releases r p h v) i = release-Moved z k r p h v q i

  Steps-Moved :
      (k : ℕ) (s t : System T) (l : List (Event T))
      → Inv z k s []
      → Steps z s l t
      → (q : List T) × Runs (2 ^ k) l q × Inv z k t q
  Steps-Moved k _ _ _ i (done s) = ([], refl, i)
  Steps-Moved k _ _ _ i (after s t u l e before step) =
      let (q, run, i') = Steps-Moved k s t l i before in
      let (q', served, i'') = Step-Moved k t u e q step i' in (q', (q, run, served), i'')

  -- The ring that `New` makes of `2 ^ k` slots.
  abbrev pub empty_ring : ℕ → Ring T
  empty_ring k = record {
    buf = replicate (2 ^ k) z;
    mask = 2 ^ k - 1;
    tail = 0;
    cached_head = 0;
    head = 0;
    cached_tail = 0;
  }

  empty_ring-Inv : (k : ℕ) → k ≤ 62 → Inv z k (at_start (empty_ring k)) []
  empty_ring-Inv k small = record {
    p = 0;
    o = 0;
    seen_o = 0;
    seen_p = 0;
    counted = (length-replicate (2 ^ k) z, refl, refl, refl, refl, refl);
    between = (small, refl, omega arith, omega arith, omega arith, omega arith);
    at_producer = tt;
    at_consumer = tt;
    holds = λ i from within. absurd (omega arith);
  }

  Steps-served :
      (k : ℕ)
      → k ≤ 62
      → (t : System T) (l : List (Event T)) → Steps z (at_start (empty_ring k)) l t
      → (q : List T) × Runs (2 ^ k) l q × (values_in l ≡ values_out l ++ q) × (length q ≤ 2 ^ k)
  Steps-served k small t l steps =
      let (q, run, i) =
        Steps-Moved k (at_start (empty_ring k)) t l (empty_ring-Inv k small) steps in
      let (small, is_p, below, room, above, upto) = i.between in
      (q, run, Runs-values (2 ^ k) l q run, omega arith)

  -- New with a capacity of up to 2^62 gives a ring of the least power of two of slots, from 2, that is
  -- not below it. Whatever steps a producer and a consumer take on the ring from then on, in any
  -- order, it is a queue of at most so many values: Push puts a value at its end where it stores the
  -- tail, and returns false only if the queue is full where it loads the head; Pop takes the first
  -- value where it stores the head, and returns false only if the queue is empty where it loads the
  -- tail. The values that came out, and then those in the queue, are the values that went in.
  pub new-Steps :
      (n : ℕ)
      → n ≤ 2 ^ 62
      → (r : Ring T) × (new z n ≡ some r)
        × Rounded 1 n (some (length r.buf))
        × ((t : System T) (l : List (Event T))
            → Steps z (at_start r) l t
            → (q : List T) × Runs (length r.buf) l q
              × (values_in l ≡ values_out l ++ q)
              × (length q ≤ length r.buf))
  unfolding new sized
  new-Steps n small =
      let d =
        double_while-Rounded (λ sz. ltb sz n) n int_rounds 0 (λ s le. refl) small (omega arith)
          (omega arith) in
      let found : double_while (λ sz. ltb sz n) int_rounds 1 ≡ some (2 ^ d.k) = d.found in
      let (k, is_n, fits, rounded) = two_at_least n d.k d.enough d.fits d.least in
      let size : length (replicate (2 ^ k) z) ≡ 2 ^ k = length-replicate (2 ^ k) z in
      (empty_ring k, rw (found, is_n) refl, rw size rounded, rw size (Steps-served k fits))
