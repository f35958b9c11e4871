-- ===== src/Smap/Runs.antt =====
-- smap/smap.go: any calls, one after another, on a map that New or New64 makes.
use mathlib.Core.Path.{fun_ext}
use yakutil.Base.{ℕ, ◌^◌, ◌≤◌, ◌≡◌, refl, ◌∙◌, ap, Option, none, some, List, [], ◌∷◌, length}
use yakutil.Smap.Shards
use yakutil.Smap.Shards.{Shard, Map, Map64, lookup, new, new64, shard, shard64, total}
use yakutil.Smap.Entries.{entries, Distinct, Placed-Distinct, total-entries}
use yakutil.Smap.Calls.{Call, Answer, perform, perform64, answer, after, answers, afters, run}
use yakutil.Smap.Held.{new-IsMap, get-held, set-Became, del-Became, get_or_set-Became}
use yakutil.Smap.Steps.{
  view, IsSharded, get_at-view, set_at-Changed, del_at-Changed, get_or_set_at-Changed,
}

module _ {K V : Type 0} (dec : Discrete K) where
  -- The calls on shards answer like a function from keys to values, which the shards hold at the end.
  pub record Ran (l : List (Shard K V)) (f : K → Option V) : Type 0 where
    pub seen : (k : K) → lookup dec k (entries l) ≡ f k
    pub once : Distinct dec (entries l)
    pub counted : total l ≡ length (entries l)

  -- A map of either kind: its shards and where its keys go.
  module _ {M : Type 0} (act : M → Call K V → Option (M × Answer V)) (route : M → K → ℕ)
      (shards : M → List (Shard K V)) where
    abbrev pub Steps : M → Call K V → Type 0
    Steps m c =
        (m' : M) × (act m c ≡ some (m', answer (view dec (shards m)) c))
        × IsSharded dec (route m') (shards m')
        × ((j : K) → view dec (shards m') j ≡ after dec (view dec (shards m)) c j)

    pub run-Ran :
        ((m : M) (c : Call K V) → IsSharded dec (route m) (shards m) → Steps m c)
        → (m : M) (f : K → Option V) (cs : List (Call K V)) → IsSharded dec (route m) (shards m)
        → view dec (shards m) ≡ f
        → (m' : M) × (run act m cs ≡ some (m', answers dec f cs))
          × Ran (shards m') (afters dec f cs)
    unfolding run answers afters
    run-Ran step m f [] v e = (
      m,
      refl,
      record {
        seen = λ k. ap (λ g. g k) e;
        once = Placed-Distinct dec (route m) 0 (shards m) v.placed;
        counted = total-entries (shards m);
      },
    )
    run-Ran step m f (c ∷ cs) v e =
        let (m', did, v', e') = step m c v in
        let (m'', rest, end) =
          run-Ran step m' (after dec f c) cs v' (fun_ext e' ∙ ap (λ g. after dec g c) e) in
        let same : act m c ≡ some (m', answer f c) = did ∙ ap (λ g. some (m', answer g c)) e in
        (m'', rw (same, rest) refl, end)

  module _ (sum : K → ℕ) where
    perform-Steps :
        (m : Map K V) (c : Call K V)
        → IsSharded dec (shard sum m) m.shards
        → Steps (perform dec sum) (shard sum) Map.shards m c
    unfolding perform answer after
    perform-Steps m (Call.get k) v = (m, rw (get-held dec sum m v k) refl, v, λ j. refl)
    perform-Steps m (Call.del k) v =
        let (m', did, became) = del-Became dec sum m v k in
        (m', rw did refl, became.valid, became.seen)
    perform-Steps m (Call.set k x) v =
        let (m', did, became) = set-Became dec sum m v k x in
        (m', rw did refl, became.valid, became.seen)
    perform-Steps m (Call.get_or_set k x) v =
        let (m', did, became) = get_or_set-Became dec sum m v k x in
        (m', rw did refl, became.valid, became.seen)

    -- New for up to 2^62 shards gives a map on which any calls of Get, Set, Del and GetOrSet, one
    -- after another, return what they return on a function from keys to values that is empty at
    -- first, whatever the hash. At the end the shards together hold each key once, with the value of
    -- that function, and Len is the number of these entries.
    pub new-run :
        (num : ℕ) (cs : List (Call K V))
        → num ≤ 2 ^ 62
        → (m : Map K V) × (m' : Map K V) × (new num ≡ some m)
          × (run (perform dec sum) m cs ≡ some (m', answers dec (λ k. none) cs))
          × Ran m'.shards (afters dec (λ k. none) cs)
    new-run num cs small =
        let (m, made, v, empty) = new-IsMap dec sum num small in
        let (m', ran, end) =
          run-Ran (perform dec sum) (shard sum) Map.shards perform-Steps m (λ k. none) cs v
            (fun_ext empty) in
        (m, m', made, ran, end)

module _ {V : Type 0} (dec : Discrete ℕ) where
  pub perform64-Steps :
      (m : Map64 V) (c : Call ℕ V)
      → IsSharded dec (shard64 m) m.shards
      → Steps dec (perform64 dec) shard64 Map64.shards m c
  unfolding perform64 answer after Shards.get64 Shards.set64 Shards.del64 Shards.get_or_set64
      shard64
  perform64-Steps m (Call.get k) v =
      (m, rw (get_at-view dec (shard64 m) m.shards v k) refl, v, λ j. refl)
  perform64-Steps m (Call.del k) v =
      let (l, did, change) = del_at-Changed dec (shard64 m) m.shards v k in
      (record m { shards = l }, rw did refl, change.valid, change.seen)
  perform64-Steps m (Call.set k x) v =
      let (l, did, change) = set_at-Changed dec (shard64 m) m.shards v k x in
      (record m { shards = l }, rw did refl, change.valid, change.seen)
  perform64-Steps m (Call.get_or_set k x) v =
      let (l, did, change) = get_or_set_at-Changed dec (shard64 m) m.shards v k x in
      (record m { shards = l }, rw did refl, change.valid, change.seen)
