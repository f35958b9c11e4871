-- ===== src/Smap/Calls.antt =====
-- smap/smap.go: Get, Set, Del and GetOrSet of the two maps as calls with their answers, and what a
-- plain function from keys to values answers.
use mathlib.Core.Logic.{ite}
use yakutil.Base.{Bool, true, false, Option, none, some, List, [], ◌∷◌, ◌>>=◌, ℕ}
use yakutil.Smap.Shards
use yakutil.Smap.Shards.{Map, Map64}

pub data Call (K V : Type 0) : Type 0 where
  get del : K → Call K V
  set get_or_set : K → V → Call K V

pub data Answer (V : Type 0) : Type 0 where
  done : Answer V
  found : Option V → Answer V
  chosen : V → Bool → Answer V

unfoldable pub or_made : {V : Type 0} → Option V → V → V × Bool
or_made none made = (made, true)
or_made (some v) made = (v, false)

unfoldable pub answer : {K V : Type 0} → (K → Option V) → Call K V → Answer V
answer f (Call.get k) = found (f k)
answer f (Call.del k) = done
answer f (Call.set k v) = done
answer f (Call.get_or_set k v) = chosen (or_made (f k) v).0 (or_made (f k) v).1

module _ {K V : Type 0} (dec : Discrete K) where
  unfoldable pub perform : (K → ℕ) → Map K V → Call K V → Option (Map K V × Answer V)
  perform sum m (Call.get k) = Shards.get dec sum m k >>= λ o. some (m, found o)
  perform sum m (Call.del k) = Shards.del dec sum m k >>= λ m'. some (m', done)
  perform sum m (Call.set k v) = Shards.set dec sum m k v >>= λ m'. some (m', done)
  perform sum m (Call.get_or_set k v) =
      Shards.get_or_set dec sum m k v >>= λ r. some (r.0, chosen r.1 r.2)

  -- A function from keys to values, as a map.
  unfoldable pub update : (K → Option V) → K → Option V → K → Option V
  update f k o j = ite (dec k j) o (f j)

  unfoldable pub after : (K → Option V) → Call K V → K → Option V
  after f (Call.get k) = f
  after f (Call.del k) = update f k none
  after f (Call.set k v) = update f k (some v)
  after f (Call.get_or_set k v) = update f k (some ((or_made (f k) v).0))

  unfoldable pub answers : (K → Option V) → List (Call K V) → List (Answer V)
  answers f [] = []
  answers f (c ∷ cs) = answer f c ∷ answers (after f c) cs

  unfoldable pub afters : (K → Option V) → List (Call K V) → K → Option V
  afters f [] = f
  afters f (c ∷ cs) = afters (after f c) cs

unfoldable pub perform64 :
    {V : Type 0} → Discrete ℕ → Map64 V → Call ℕ V → Option (Map64 V × Answer V)
perform64 dec m (Call.get k) = Shards.get64 dec m k >>= λ o. some (m, found o)
perform64 dec m (Call.del k) = Shards.del64 dec m k >>= λ m'. some (m', done)
perform64 dec m (Call.set k v) = Shards.set64 dec m k v >>= λ m'. some (m', done)
perform64 dec m (Call.get_or_set k v) =
    Shards.get_or_set64 dec m k v >>= λ r. some (r.0, chosen r.1 r.2)

-- A run of calls on a map of any kind.
unfoldable pub run :
    {M K V : Type 0}
    → (M → Call K V → Option (M × Answer V))
    → M
    → List (Call K V)
    → Option (M × List (Answer V))
run act m [] = some (m, [])
run act m (c ∷ cs) = act m c >>= λ r. run act r.0 cs >>= λ t. some (t.0, r.1 ∷ t.1)
