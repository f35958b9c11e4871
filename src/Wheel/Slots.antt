-- ===== src/Wheel/Slots.antt =====
-- wheel/wheel.go: the wheel. A slot is its linked list of entries; the pool of free entries is not
-- kept, since an entry taken from it is filled anew. The map `index` is the list of its keys: what
-- it points to is the entry with that id.
use Prim.Native.Nat.{bit_and}
use yakutil.Base.{
  ℕ, ◌+◌, ◌-◌, ◌/◌, ◌%◌, Bool, true, false, Option, none, some, List, [], ◌∷◌, ◌++◌, map, ltb, ◌==◌,
  if◌then◌else◌, ◌>>=◌, length, get_or, set, replicate,
}
use yakutil.Base.Int.{u64_mod}
use yakutil.Base.Doubling.{double_while, int_rounds}

pub record Entry (T : Type 0) : Type 0 where
  pub id : ℕ
  pub val : T
  pub rounds : ℕ

pub record Wheel (T : Type 0) : Type 0 where
  pub tick : ℕ
  pub slots : List (List (Entry T))
  pub mask : ℕ
  pub cur : ℕ
  pub next_id : ℕ
  pub index : List ℕ

-- Is the key in the map, and the map without it.
unfoldable pub has : ℕ → List ℕ → Bool
has id [] = false
has id (i ∷ l) = if i == id then true else has id l

unfoldable pub delete : ℕ → List ℕ → List ℕ
delete id [] = []
delete id (i ∷ l) = let rest = delete id l in if i == id then rest else i ∷ rest

module _ {T : Type 0} where
  -- `New`; `none` would be a loop without end
  unfoldable pub new : ℕ → ℕ → Option (Wheel T)
  new tick num_slots = double_while (λ sz. ltb sz num_slots) int_rounds 16 >>= λ sz. some (record {
    tick = tick;
    slots = replicate sz [];
    mask = sz - 1;
    cur = 0;
    next_id = 0;
    index = [];
  })

  -- `pushBack`
  unfoldable pub push_back : Entry T → List (Entry T) → List (Entry T)
  push_back e slot = slot ++ (e ∷ [])

  -- `Add` once the number of ticks is known
  unfoldable pub schedule : Wheel T → ℕ → T → Wheel T × ℕ
  schedule w ticks val =
      let id = (w.next_id + 1) % u64_mod in
      let pos = bit_and (w.cur + ticks) w.mask in
      let e : Entry T = record { id = id; val = val; rounds = ticks / (w.mask + 1) } in
      (
        record w {
          next_id = id;
          slots = set w.slots pos (push_back e (get_or w.slots pos []));
          index = id ∷ w.index;
        },
        id,
      )

  -- `Add`, which panics on a tick of 0. A duration below 0 counts as one of 0 does.
  unfoldable pub add : Wheel T → ℕ → T → Option (Wheel T × ℕ)
  add w d val =
      let ticks = d / w.tick in
      if w.tick == 0 then none else some (schedule w (if ticks == 0 then 1 else ticks) val)

  -- `removeEntry` of the entry with an id, from the slot that has it
  unfoldable pub remove_entry : ℕ → List (Entry T) → List (Entry T)
  remove_entry id [] = []
  remove_entry id (e ∷ l) = let rest = remove_entry id l in if e.id == id then rest else e ∷ rest

  -- `Cancel`
  unfoldable pub cancel : Wheel T → ℕ → Wheel T × Bool
  cancel w id =
      if has id w.index
      then (record w { index = delete id w.index; slots = map (remove_entry id) w.slots }, true)
      else (w, false)

  -- The pass of `Advance` over a slot: what stays, and what is due.
  unfoldable pub waiting : List (Entry T) → List (Entry T)
  waiting [] = []
  waiting (e ∷ l) =
      let rest = waiting l in
      if ltb 0 e.rounds then record e { rounds = e.rounds - 1 } ∷ rest else rest

  unfoldable pub expired : List (Entry T) → List (Entry T)
  expired [] = []
  expired (e ∷ l) = let rest = expired l in if ltb 0 e.rounds then rest else e ∷ rest

  unfoldable pub delete_all : List (Entry T) → List ℕ → List ℕ
  delete_all [] index = index
  delete_all (e ∷ l) index = delete_all l (delete e.id index)

  -- `Advance`: the wheel, and the values that go to the callback in turn
  unfoldable pub advance : Wheel T → Wheel T × List T
  advance w =
      let cur = bit_and (w.cur + 1) w.mask in
      let slot = get_or w.slots cur [] in
      (
        record w {
          cur = cur;
          slots = set w.slots cur (waiting slot);
          index = delete_all (expired slot) w.index;
        },
        map (λ e. e.val) (expired slot),
      )

  -- `Len`
  abbrev pub len : Wheel T → ℕ
  len w = length w.index
