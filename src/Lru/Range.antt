-- ===== src/Lru/Range.antt =====
-- lru/lru.go: Range and RangeLimit over one shard. The callback works on a state, and the shard is
-- read from that state whenever it is locked, since it may be changed between two batches.
use yakutil.Base.{
  ℕ, zero, suc, ◌-◌, ◌≡◌, refl, Bool, true, false, not, Option, none, some, List, [], ◌∷◌, arith,
  ltb, ◌==◌, if◌then◌else◌, length,
}
use yakutil.Base.Keyed.{find, last}
use yakutil.Lru.Shard.{Node, Shard, expired, key_of}

module _ {K V : Type 0} where
  -- the entries that have not expired, the newest first
  unfoldable pub snapshot : Shard K V → ℕ → List (Node K V) → List (Node K V)
  snapshot s now [] = []
  snapshot s now (n ∷ l) = let rest = snapshot s now l in if expired s now n then rest else n ∷ rest

  -- `for _, kv := range snap { if !fn(kv.key, kv.val) { return false } }`
  unfoldable pub visit : {S : Type 0} → (S → K → V → S × Bool) → S → List (Node K V) → S × Bool
  visit fn st [] = (st, true)
  visit fn st (n ∷ l) =
      let (st', go) = fn st n.key n.val in
      let rest = visit fn st' l in if go then rest else (st', false)

  -- `rangeAll`
  unfoldable pub range_all :
      {S : Type 0} → (S → Shard K V) → ℕ → (S → K → V → S × Bool) → S → S × Bool
  range_all seen now fn st = visit fn st (snapshot (seen st) now (seen st).order)

  -- The loop over the list for one batch once `skip` is off, with `left` entries to go.
  unfoldable pub collect_from : Shard K V → ℕ → ℕ → List (Node K V) → List (Node K V)
  collect_from s now left [] = []
  collect_from s now left (n ∷ l) =
      let same = collect_from s now left l in
      let fewer = collect_from s now (left - 1) l in
      if expired s now n then same else n ∷ (if ltb 1 left then fewer else [])

module _ {K V : Type 0} (dec : Discrete K) where
  -- the loop with `skip` on, which looks for the last key
  unfoldable pub collect : Shard K V → ℕ → K → ℕ → List (Node K V) → List (Node K V)
  collect s now last_key left [] = []
  collect s now last_key left (n ∷ l) = elim (dec n.key last_key) [
    | yes _ ↦ collect_from s now left l
    | no _ ↦ collect s now last_key left l
  ]

  abbrev pub last_key_of : K → List (Node K V) → K
  last_key_of k batch = elim (last dec key_of batch) [ none ↦ k | some n ↦ n.key ]

  -- The rounds of `rangeBatch`; `none` is out of fuel.
  unfoldable pub range_rounds :
      {S : Type 0}
      → ℕ
      → (S → Shard K V)
      → ℕ
      → ℕ
      → (S → K → V → S × Bool)
      → Bool
      → K
      → S
      → Option (S × Bool)
  range_rounds zero seen now size fn first last_key st = none
  range_rounds (suc fuel) seen now size fn first last_key st =
      let skipped = collect (seen st) now last_key size (seen st).order in
      let full = collect_from (seen st) now size (seen st).order in
      let batch = if first then skipped else full in
      let (st', go) = visit fn st batch in
      let next = range_rounds fuel seen now size fn false (last_key_of last_key batch) st' in
      if length batch == 0
      then some (st, true)
      else if not go
      then some (st', false)
      else if ltb (length batch) size
      then some (st', true)
      else next

  -- `rangeBatch`, with the empty string
  unfoldable pub range_batch :
      {S : Type 0}
      → K
      → ℕ
      → (S → Shard K V)
      → ℕ
      → ℕ
      → (S → K → V → S × Bool)
      → S
      → Option (S × Bool)
  range_batch empty fuel seen now size fn st = range_rounds fuel seen now size fn true empty st

  collect_absent :
      (s : Shard K V) (now : ℕ) (k : K) (left : ℕ) (l : List (Node K V))
      → find dec key_of k l ≡ none
      → collect s now k left l ≡ []
  unfolding collect find
  collect_absent s now k left [] h = refl
  collect_absent s now k left (n ∷ l) h = ground (arith, collect_absent s now k left l)

  -- RangeLimit over a shard that has no entry under the empty string calls the callback for no entry
  -- at all, whatever the shard holds, and reports that it has seen everything.
  pub range_batch-skips :
      {S : Type 0} (empty : K) (fuel : ℕ) (seen : S → Shard K V) (now size : ℕ)
      (fn : S → K → V → S × Bool) (st : S)
      → find dec key_of empty (seen st).order ≡ none
      → range_batch empty (suc fuel) seen now size fn st ≡ some (st, true)
  unfolding range_batch range_rounds
  range_batch-skips empty fuel seen now size fn st h =
      rw (collect_absent (seen st) now empty size (seen st).order h) refl
