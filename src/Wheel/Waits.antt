-- ===== src/Wheel/Waits.antt =====
-- wheel/wheel.go: how many ticks each entry has still to wait, and what a tick does to that.
use mathlib.Core.List.{append-nil}
use yakutil.Base.{
  ℕ, zero, suc, ◌+◌, ◌-◌, ◌*◌, ◌<◌, ◌≡◌, ◌≢◌, refl, ◌∙◌, List, [], ◌∷◌, ◌++◌, map, arith, ltb, ◌==◌,
  if◌then◌else◌, length, get_or, set,
}
use yakutil.Wheel.Slots.{Entry, waiting, expired}

-- An entry as the caller sees it.
pub record Timer (T : Type 0) : Type 0 where
  pub left : ℕ
  pub id : ℕ
  pub val : T

-- The ticks from slot `cur` to the next time that slot `p` comes up, out of `size`.
abbrev pub distance : ℕ → ℕ → ℕ → ℕ
distance size cur p = if ltb cur p then p - cur else p + size - cur

no_rounds : (n size : ℕ) → n ≡ 0 → n * size ≡ 0
no_rounds n size h = rw h (omega arith)

round_less : (n size : ℕ) → 0 < n → size + (n - 1) * size ≡ n * size
round_less zero size h = absurd (omega arith)
round_less (suc n) size h = let one : suc n - 1 ≡ n = omega arith in rw one (omega arith)

-- the slot after `cur`
abbrev pub next : ℕ → ℕ → ℕ
next size cur = if cur + 1 == size then 0 else cur + 1

distance_passed :
    (size cur p : ℕ)
    → cur < size
    → p < size
    → p ≢ next size cur
    → (distance size cur p ≡ distance size (next size cur) p + 1)
      × (0 < distance size (next size cur) p)
distance_passed size cur p in_range here other = ground arith

distance_come :
    (size cur : ℕ)
    → cur < size
    → (distance size cur (next size cur) ≡ 1)
      × (distance size (next size cur) (next size cur) ≡ size)
distance_come size cur in_range = ground arith

module _ {T : Type 0} (size : ℕ) where
  -- an entry in a slot that comes up in `d` ticks
  abbrev pub timer : ℕ → Entry T → Timer T
  timer d e = record { left = d + e.rounds * size; id = e.id; val = e.val }

  -- all that wait, slot by slot, the first at `p`
  abbrev pub timers : ℕ → ℕ → List (List (Entry T)) → List (Timer T)
  timers cur p [] = []
  timers cur p (slot ∷ l) = map (timer (distance size cur p)) slot ++ timers cur (suc p) l

module _ {T : Type 0} where
  -- A tick of the clock: who had one tick left is due, and the others have one less.
  abbrev pub ticked : List (Timer T) → List (Timer T)
  ticked [] = []
  ticked (t ∷ l) =
      let rest = ticked l in if t.left == 1 then rest else record t { left = t.left - 1 } ∷ rest

  abbrev pub due : List (Timer T) → List T
  due [] = []
  due (t ∷ l) = let rest = due l in if t.left == 1 then t.val ∷ rest else rest

  ticked-append : (l m : List (Timer T)) → ticked (l ++ m) ≡ ticked l ++ ticked m
  ticked-append [] m = refl
  ticked-append (t ∷ l) m = ground (arith, ticked-append l m)

  due-append : (l m : List (Timer T)) → due (l ++ m) ≡ due l ++ due m
  due-append [] m = refl
  due-append (t ∷ l) m = ground (arith, due-append l m)

  after_after :
      (l m : List (Timer T)) {l' m' : List (Timer T)} {x y : List T}
      → (ticked l ≡ l') × (due l ≡ x)
      → (ticked m ≡ m') × (due m ≡ y)
      → (ticked (l ++ m) ≡ l' ++ m') × (due (l ++ m) ≡ x ++ y)
  after_after l m (tl, dl) (tm, dm) =
      (rw (ticked-append l m, tl, tm) refl, rw (due-append l m, dl, dm) refl)

  module _ (size : ℕ) where
    -- A slot that the tick passes by.
    ticked_passed :
        (d : ℕ) (l : List (Entry T))
        → 0 < d
        → ticked (map (timer size (d + 1)) l) ≡ map (timer size d) l
    ticked_passed d [] far = refl
    ticked_passed d (e ∷ l) far = ground (arith, ticked_passed d l)

    due_passed : (d : ℕ) (l : List (Entry T)) → 0 < d → due (map (timer size (d + 1)) l) ≡ []
    due_passed d [] far = refl
    due_passed d (e ∷ l) far = ground (arith, due_passed d l)

    -- The slot that the tick comes to.
    ticked_come :
        (l : List (Entry T))
        → 0 < size
        → ticked (map (timer size 1) l) ≡ map (timer size size) (waiting l)
    unfolding waiting
    ticked_come [] far = refl
    ticked_come (e ∷ l) far =
        ground (arith, ticked_come l, no_rounds e.rounds size, round_less e.rounds size)

    due_come :
        (l : List (Entry T)) → 0 < size → due (map (timer size 1) l) ≡ map (λ e. e.val) (expired l)
    unfolding expired
    due_come [] far = refl
    due_come (e ∷ l) far =
        ground (arith, due_come l, no_rounds e.rounds size, round_less e.rounds size)

    slot_passed :
        (d d' : ℕ) (l : List (Entry T))
        → (d ≡ d' + 1) × (0 < d')
        → (ticked (map (timer size d) l) ≡ map (timer size d') l)
          × (due (map (timer size d) l) ≡ [])
    slot_passed d d' l (step, far) = rw step (ticked_passed d' l far, due_passed d' l far)

    slot_come :
        (d d' : ℕ) (l : List (Entry T))
        → (d ≡ 1) × (d' ≡ size)
        → 0 < size
        → (ticked (map (timer size d) l) ≡ map (timer size d') (waiting l))
          × (due (map (timer size d) l) ≡ map (λ e. e.val) (expired l))
    slot_come d d' l (one, full) far = rw (one, full) (ticked_come l far, due_come l far)

    -- The slots behind the one that the tick comes to, and those in front of it.
    module _ (cur : ℕ) where
      ticked_past :
          (p : ℕ) (l : List (List (Entry T)))
          → cur < size
          → next size cur < p
          → p + length l ≡ size
          → (ticked (timers size cur p l) ≡ timers size (next size cur) p l)
            × (due (timers size cur p l) ≡ [])
      ticked_past p [] in_range past end = (refl, refl)
      ticked_past p (slot ∷ l) in_range past end =
          after_after (map (timer size (distance size cur p)) slot) (timers size cur (suc p) l)
            (slot_passed (distance size cur p) (distance size (next size cur) p) slot
              (distance_passed size cur p in_range (omega arith) (omega arith)))
            (ticked_past (suc p) l in_range (omega arith) (omega arith))

      pub ticked_to :
          (i p : ℕ) (l : List (List (Entry T)))
          → cur < size
          → p + i ≡ next size cur
          → p + length l ≡ size
          → (ticked (timers size cur p l)
              ≡ timers size (next size cur) p (set l i (waiting (get_or l i []))))
            × (due (timers size cur p l) ≡ map (λ e. e.val) (expired (get_or l i [])))
      ticked_to i p [] in_range there end = absurd (ground arith)
      ticked_to zero p (slot ∷ l) in_range there end =
          let same : p ≡ next size cur = omega arith in
          let (t, d) =
            after_after (map (timer size (distance size cur p)) slot) (timers size cur (suc p) l)
              (slot_come (distance size cur p) (distance size (next size cur) p) slot
                (rw same (distance_come size cur in_range)) (omega arith))
              (ticked_past (suc p) l in_range (omega arith) (omega arith)) in
          (t, d ∙ append-nil (map (λ e. e.val) (expired slot)))
      ticked_to (suc i) p (slot ∷ l) in_range there end =
          after_after (map (timer size (distance size cur p)) slot) (timers size cur (suc p) l)
            (slot_passed (distance size cur p) (distance size (next size cur) p) slot
              (distance_passed size cur p in_range (omega arith) (omega arith)))
            (ticked_to i (suc p) l in_range (omega arith) (omega arith))
