-- ===== src/Lru/Shard.antt =====
-- lru/lru.go: one shard. A node is known by its key: `order` is the linked list, the newest first,
-- and `items` the keys of the map. Both are kept, and changed apart, as the code does. Times are
-- nanoseconds; a clock that goes back makes an age of 0, which expires nothing, as a negative one.
use yakutil.Base.{ℕ, ◌-◌, Bool, ◌&&◌, Option, none, some, List, [], ◌∷◌, ltb, if◌then◌else◌, length}
use yakutil.Base.Keyed.{find, unlink, last}

pub record Node (K V : Type 0) : Type 0 where
  pub key : K
  pub val : V
  pub created : ℕ

pub record Shard (K V : Type 0) : Type 0 where
  pub items : List K
  pub order : List (Node K V)
  pub cap : ℕ
  pub ttl : ℕ

module _ {K V : Type 0} where
  -- `init`, and `purge`, which keeps the settings
  unfoldable pub init : ℕ → ℕ → Shard K V
  init cap ttl = record { items = []; order = []; cap = cap; ttl = ttl }

  unfoldable pub purge : Shard K V → Shard K V
  purge s = record s { items = []; order = [] }

  -- `pushFront`
  unfoldable pub push_front : Node K V → List (Node K V) → List (Node K V)
  push_front n order = n ∷ order

  -- `s.ttl > 0 && now-n.created > s.ttl`
  unfoldable pub expired : Shard K V → ℕ → Node K V → Bool
  expired s now n = ltb 0 s.ttl && ltb s.ttl (now - n.created)

  -- the time stamp of an entry, 0 without expiry
  abbrev pub stamp : Shard K V → ℕ → ℕ
  stamp s now = if ltb 0 s.ttl then now else 0

  -- `len`
  abbrev pub len : Shard K V → ℕ
  len s = length s.items

abbrev pub key_of : {K V : Type 0} → Node K V → K
key_of n = n.key

abbrev pub itself : {K : Type 0} → K → K
itself k = k

-- `delete(s.items, key)`, of a map's keys
abbrev pub delete : {K : Type 0} → Discrete K → K → List K → List K
delete dec k = unlink dec itself k

module _ {K V : Type 0} (dec : Discrete K) where
  -- `s.items[key]`: the node in the list that the map has for the key
  unfoldable pub lookup : Shard K V → K → Option (Node K V)
  lookup s key = elim (find dec itself key s.items) [
    | none ↦ none
    | some _ ↦ find dec key_of key s.order
  ]

  -- `remove`, of the node with a key
  abbrev pub remove : K → List (Node K V) → List (Node K V)
  remove k = unlink dec key_of k

  -- `moveToFront`, with the node as it is now
  unfoldable pub move_to_front : Node K V → List (Node K V) → List (Node K V)
  move_to_front n order = push_front n (remove n.key order)

  -- `get` at the time `now`
  unfoldable pub get : Shard K V → ℕ → K → Shard K V × Option V
  get s now key = elim (lookup s key) [
    | none ↦ (s, none)
    | some n ↦
        if expired s now n
        then (record s { items = delete dec key s.items; order = remove key s.order }, none)
        else (record s { order = move_to_front n s.order }, some n.val)
  ]

  -- `unlinkOldest`: the entry that goes, if there is one
  unfoldable pub unlink_oldest : Shard K V → Shard K V × Option (Node K V)
  unlink_oldest s = elim (last dec key_of s.order) [
    | none ↦ (s, none)
    | some n ↦ (record s { items = delete dec n.key s.items; order = remove n.key s.order }, some n)
  ]

  -- `set` at the time `now`: the shard, and the entry evicted, which goes to the callback
  unfoldable pub set : Shard K V → ℕ → K → V → Shard K V × Option (Node K V)
  set s now key val = elim (lookup s key) [
    | some n ↦ (
      record s {
        order =
            move_to_front (record n { val = val; created = if ltb 0 s.ttl then now else n.created })
              s.order;
      },
      none,
    )
    | none ↦
        let s' = record s {
          items = key ∷ s.items;
          order = push_front (record { key = key; val = val; created = stamp s now }) s.order;
        } in
        if ltb s'.cap (length s'.items) then unlink_oldest s' else (s', none)
  ]

  -- `del`
  unfoldable pub del : Shard K V → K → Shard K V
  del s key = elim (lookup s key) [
    | none ↦ s
    | some n ↦ record s { items = delete dec key s.items; order = remove key s.order }
  ]
