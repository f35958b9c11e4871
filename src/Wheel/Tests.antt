-- ===== src/Wheel/Tests.antt =====
-- wheel/wheel.go: runs of the wheel, and each theorem at an input that meets its hypotheses.
use yakutil.Base.{ℕ, ◌+◌, ◌%◌, ◌==◌, if◌then◌else◌, ◌≡◌, refl, List, [], ◌∷◌, ◌++◌, arith}
use yakutil.Base.Doubling.{double_while}
use yakutil.Wheel.Slots.{
  Wheel, has, delete, new, push_back, schedule, add, remove_entry, cancel, waiting, expired,
  delete_all, advance,
}
use yakutil.Wheel.Waits.{ticked, due}
use yakutil.Wheel.Ticks.{IsValid, pending, advance-ticked}
use yakutil.Wheel.Schedule.{advances, schedule-fires}
use yakutil.Wheel.Cancels.{Cancelled, cancel-Cancelled}

program : Unit {0}
unfolding double_while has delete new push_back schedule add remove_entry cancel waiting expired
    delete_all advance
program = tt

-- Two slots, and one timer due with the next tick and one that waits a turn more.
abbrev small : Wheel ℕ
small = record {
  tick = 10;
  slots =
      []
      ∷ (record { id = 1; val = 70; rounds = 0 } ∷ record { id = 2; val = 80; rounds = 1 } ∷ [])
      ∷ [];
  mask = 1;
  cur = 0;
  next_id = 2;
  index = 2 ∷ 1 ∷ [];
}

small-IsValid : IsValid small
small-IsValid = record { k = 1; size = refl; masked = refl; in_range = omega arith }

advance_small : (advance small).1 ≡ 70 ∷ []
unfolding program
advance_small = refl

advance-ticked_example :
    IsValid (advance small).0
    × (pending (advance small).0 ≡ ticked (pending small))
    × ((advance small).1 ≡ due (pending small))
advance-ticked_example = advance-ticked small small-IsValid

cancel-Cancelled_example : Cancelled small 2 (cancel small 2)
cancel-Cancelled_example = cancel-Cancelled small 2 small-IsValid

third : (advance (advances 2 small)).1 ≡ 80 ∷ []
unfolding program
third = refl

-- Four ticks are two turns of two slots: the value comes with the sixth call.
schedule-fires_example :
    (before : List ℕ) × (after : List ℕ) × ((advance (advances 5 small)).1 ≡ before ++ after)
    × ((advance (advances 5 (schedule small 4 90).0)).1 ≡ (
        if 6 == (if 4 % 2 == 0 then 4 + 2 else 4) then before ++ 90 ∷ after else before ++ after))
schedule-fires_example = schedule-fires small 4 90 small-IsValid 5

late :
    ((advance (advances 3 (schedule small 4 90).0)).1 ≡ [])
    × ((advance (advances 5 (schedule small 4 90).0)).1 ≡ 90 ∷ [])
unfolding program
late = (refl, refl)
