-- ===== src/Spsc/Slots.antt =====
-- spsc/ring.go: the ring, and Push and Pop as their atomic steps. The producer and the consumer are two
-- goroutines, whose steps come between each other in any order. A step loads or stores one variable
-- that the other side uses; what follows it on the own side belongs to it.
use Prim.Native.Nat.{bit_and}
use yakutil.Base.{
  ℕ, ◌+◌, ◌-◌, ◌%◌, Bool, true, false, Option, none, some, List, [], ◌∷◌, ltb, ◌==◌, if◌then◌else◌,
  length, get_or, set, replicate,
}
use yakutil.Base.Doubling.{double_while, int_rounds}
use yakutil.Base.Int.{u64_mod}

pub record Ring (T : Type 0) : Type 0 where
  pub buf : List T
  pub mask : ℕ
  pub tail : ℕ
  pub cached_head : ℕ
  pub head : ℕ
  pub cached_tail : ℕ

-- Where `Push` stands: at rest, before it loads the head, before it writes its slot, and before it
-- stores the tail. `t` is the tail that it has loaded.
pub data Producer (T : Type 0) : Type 0 where
  at_rest : Producer T
  refreshing writing publishing : ℕ → T → Producer T

-- Where `Pop` stands: at rest, before it loads the tail, before it reads its slot, before it clears
-- the slot, and before it stores the head.
pub data Consumer (T : Type 0) : Type 0 where
  resting : Consumer T
  reloading reading : ℕ → Consumer T
  clearing releasing : ℕ → T → Consumer T

-- What a step shows: nothing, that a value is in, that Push has returned false, that a value is out,
-- or that Pop has returned false.
pub data Event (T : Type 0) : Type 0 where
  quiet refused empty : Event T
  pushed popped : T → Event T

module _ {T : Type 0} (zero_value : T) where
  -- the ring for a size that the loop of `New` ends with
  unfoldable pub sized : Option ℕ → Option (Ring T)
  sized none = none
  sized (some sz) =
      let n = if ltb sz 2 then 2 else sz in
      some (record {
        buf = replicate n zero_value;
        mask = n - 1;
        tail = 0;
        cached_head = 0;
        head = 0;
        cached_tail = 0;
      })

  -- `New`; `none` is a loop that does not end
  unfoldable pub new : ℕ → Option (Ring T)
  new n = sized (double_while (λ sz. ltb sz n) int_rounds 1)

  -- `buf[idx] = zero`
  unfoldable pub clear_slot : Ring T → ℕ → Ring T
  clear_slot r h = record r { buf = set r.buf (bit_and h r.mask) zero_value }

  -- `val := r.buf[idx]`
  unfoldable pub read_slot : Ring T → ℕ → T
  read_slot r h = get_or r.buf (bit_and h r.mask) zero_value

module _ {T : Type 0} where
  -- `t-r.cachedHead >= uint64(len(r.buf))`
  unfoldable pub is_full : Ring T → ℕ → Bool
  is_full r t = if ltb ((t + u64_mod - r.cached_head) % u64_mod) (length r.buf) then false else true

  -- the first test of `Push`
  unfoldable pub push_start : Ring T → T → Producer T
  push_start r v = if is_full r r.tail then refreshing r.tail v else writing r.tail v

  -- `r.cachedHead = r.head.Load()` and the second test
  unfoldable pub push_refresh : Ring T → ℕ → T → Ring T × Producer T × Event T
  push_refresh r t v =
      let r' : Ring T = record r { cached_head = r.head } in
      if is_full r' t then (r', at_rest, refused) else (r', writing t v, quiet)

  -- `r.buf[t&r.mask] = val`
  unfoldable pub push_write : Ring T → ℕ → T → Ring T
  push_write r t v = record r { buf = set r.buf (bit_and t r.mask) v }

  -- `r.tail.Store(t + 1)`
  unfoldable pub push_publish : Ring T → ℕ → Ring T
  push_publish r t = record r { tail = (t + 1) % u64_mod }

  -- the first test of `Pop`
  unfoldable pub pop_start : Ring T → Consumer T
  pop_start r = if r.head == r.cached_tail then reloading r.head else reading r.head

  -- `r.cachedTail = r.tail.Load()` and the second test
  unfoldable pub pop_reload : Ring T → ℕ → Ring T × Consumer T × Event T
  pop_reload r h =
      let r' : Ring T = record r { cached_tail = r.tail } in
      if h == r.tail then (r', resting, empty) else (r', reading h, quiet)

  -- `r.head.Store(h + 1)`
  unfoldable pub pop_release : Ring T → ℕ → Ring T
  pop_release r h = record r { head = (h + 1) % u64_mod }

  -- `Len` and `Cap`
  unfoldable pub len : Ring T → ℕ
  len r = if ltb r.tail r.head then 0 else r.tail - r.head

  unfoldable pub cap : Ring T → ℕ
  cap r = length r.buf

-- The ring with its two sides.
pub record System (T : Type 0) : Type 0 where
  pub ring : Ring T
  pub producer : Producer T
  pub consumer : Consumer T

-- One step of one of the sides.
pub data Step {T : Type 0} (zero_value : T) : System T → Event T → System T → Type 0 where
  starts_push :
      (r : Ring T) (c : Consumer T) (v : T)
      → Step zero_value
          (record { ring = r; producer = at_rest; consumer = c })
          quiet
          (record { ring = r; producer = push_start r v; consumer = c })
  refreshes :
      (r : Ring T) (c : Consumer T) (t : ℕ) (v : T)
      → Step zero_value
          (record { ring = r; producer = refreshing t v; consumer = c })
          ((push_refresh r t v).2)
          (record {
            ring = (push_refresh r t v).0;
            producer = (push_refresh r t v).1;
            consumer = c;
          })
  writes :
      (r : Ring T) (c : Consumer T) (t : ℕ) (v : T)
      → Step zero_value
          (record { ring = r; producer = writing t v; consumer = c })
          quiet
          (record { ring = push_write r t v; producer = publishing t v; consumer = c })
  publishes :
      (r : Ring T) (c : Consumer T) (t : ℕ) (v : T)
      → Step zero_value
          (record { ring = r; producer = publishing t v; consumer = c })
          (pushed v)
          (record { ring = push_publish r t; producer = at_rest; consumer = c })
  starts_pop :
      (r : Ring T) (p : Producer T)
      → Step zero_value
          (record { ring = r; producer = p; consumer = resting })
          quiet
          (record { ring = r; producer = p; consumer = pop_start r })
  reloads :
      (r : Ring T) (p : Producer T) (h : ℕ)
      → Step zero_value
          (record { ring = r; producer = p; consumer = reloading h })
          ((pop_reload r h).2)
          (record { ring = (pop_reload r h).0; producer = p; consumer = (pop_reload r h).1 })
  reads :
      (r : Ring T) (p : Producer T) (h : ℕ)
      → Step zero_value
          (record { ring = r; producer = p; consumer = reading h })
          quiet
          (record { ring = r; producer = p; consumer = clearing h (read_slot zero_value r h) })
  clears :
      (r : Ring T) (p : Producer T) (h : ℕ) (v : T)
      → Step zero_value
          (record { ring = r; producer = p; consumer = clearing h v })
          quiet
          (record { ring = clear_slot zero_value r h; producer = p; consumer = releasing h v })
  releases :
      (r : Ring T) (p : Producer T) (h : ℕ) (v : T)
      → Step zero_value
          (record { ring = r; producer = p; consumer = releasing h v })
          (popped v)
          (record { ring = pop_release r h; producer = p; consumer = resting })

-- Steps one after the other, with what each shows, the last one first.
pub data Steps {T : Type 0} (zero_value : T) : System T → List (Event T) → System T → Type 0 where
  done : (s : System T) → Steps zero_value s [] s
  after :
      (s t u : System T) (l : List (Event T)) (e : Event T)
      → Steps zero_value s l t
      → Step zero_value t e u
      → Steps zero_value s (e ∷ l) u
