-- ===== src/Wheel/Schedule.antt =====
-- wheel/wheel.go: when a timer fires, over many calls of Advance.
use yakutil.Base.{
  ℕ, zero, suc, ◌+◌, ◌%◌, ◌≡◌, ◌++◌, length, refl, ◌∙◌, ap, List, [], ◌∷◌, arith, ◌==◌,
  if◌then◌else◌,
}
use yakutil.Base.Int.{u64_mod}
use yakutil.Wheel.Slots.{Wheel, advance, schedule}
use yakutil.Wheel.Waits.{Timer, ticked, due}
use yakutil.Wheel.Additions.{schedule-pending}
use yakutil.Wheel.Ticks.{IsValid, pending, advance-ticked}

module _ {T : Type 0} where
  -- the wheel after `n` calls of Advance
  abbrev pub advances : ℕ → Wheel T → Wheel T
  advances zero w = w
  advances (suc n) w = advances n (advance w).0

  -- the values of the timers with `n` ticks left
  abbrev pub due_in : ℕ → List (Timer T) → List T
  due_in n [] = []
  due_in n (t ∷ l) = let rest = due_in n l in if t.left == n then t.val ∷ rest else rest

  due_in-one : (l : List (Timer T)) → due l ≡ due_in 1 l
  due_in-one [] = refl
  due_in-one (t ∷ l) = ground (arith, due_in-one l)

  due_in-ticked : (n : ℕ) (l : List (Timer T)) → due_in (suc n) (ticked l) ≡ due_in (suc (suc n)) l
  due_in-ticked n [] = refl
  due_in-ticked n (t ∷ l) = ground (arith, due_in-ticked n l)

  -- On a valid wheel call `n + 1` of Advance, from now on and without calls of Add and Cancel between,
  -- hands to the callback just the values of the timers that have `n + 1` ticks left now.
  pub advances-due_in :
      (n : ℕ) (w : Wheel T) → IsValid w → (advance (advances n w)).1 ≡ due_in (suc n) (pending w)
  advances-due_in zero w v =
      let (valid, next, fired) = advance-ticked w v in fired ∙ due_in-one (pending w)
  advances-due_in (suc n) w v =
      let (valid, next, fired) = advance-ticked w v in
      advances-due_in n (advance w).0 valid
      ∙ (ap (due_in (suc n)) next ∙ due_in-ticked n (pending w))

  due_in-append : (n : ℕ) (l m : List (Timer T)) → due_in n (l ++ m) ≡ due_in n l ++ due_in n m
  due_in-append n [] m = refl
  due_in-append n (t ∷ l) m = ground (arith, due_in-append n l m)

  -- On a valid wheel a value is added for `t` ticks, and then come calls of Advance without calls of
  -- Add and Cancel between. Call `t` hands the value to the callback, and if `t` is a multiple of the
  -- number of slots, the call that number later and not call `t`. It does so once, among the values
  -- that it would have handed over without the value; every other call hands over just what it would
  -- have without it.
  pub schedule-fires :
      (w : Wheel T) (t : ℕ) (x : T)
      → IsValid w
      → (n : ℕ)
      → (before : List T) × (after : List T) × ((advance (advances n w)).1 ≡ before ++ after)
        × ((advance (advances n (schedule w t x).0)).1 ≡ (
            if suc n == (if t % length w.slots == 0 then t + length w.slots else t)
            then before ++ x ∷ after
            else before ++ after))
  schedule-fires w t x v n =
      let (valid, id, i) = schedule-pending w v t x in
      let due = if t % length w.slots == 0 then t + length w.slots else t in
      let y : Timer T = record { left = due; id = (w.next_id + 1) % u64_mod; val = x } in
      let all : (advance (advances n (schedule w t x).0)).1
          ≡ due_in (suc n) i.front ++ due_in (suc n) (y ∷ i.back) =
        advances-due_in n (schedule w t x).0 valid
        ∙ (ap (due_in (suc n)) i.is ∙ due_in-append (suc n) i.front (y ∷ i.back)) in
      (
        due_in (suc n) i.front,
        due_in (suc n) i.back,
        advances-due_in n w v ∙ (ap (due_in (suc n)) i.was ∙ due_in-append (suc n) i.front i.back),
        all ∙ ground arith,
      )
