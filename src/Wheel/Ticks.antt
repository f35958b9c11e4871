-- ===== src/Wheel/Ticks.antt =====
-- wheel/wheel.go: the wheel keeps to the clock that `Waits` describes.
use Prim.Native.Nat.{bit_and}
use yakutil.Base.{
  ℕ, zero, suc, ◌+◌, ◌-◌, ◌%◌, ◌^◌, ◌≤◌, ◌<◌, ◌≡◌, refl, sym, ◌∙◌, ap, some, List, [], arith, ltb,
  length, get_or, set, replicate, length-replicate, length-set, rotate,
}
use yakutil.Base.Bits.{bit_and-mask, two-pow-pos}
use yakutil.Base.Doubling.{Rounded, double_while-Rounded, int_rounds}
use yakutil.Wheel.Slots.{Entry, Wheel, new, waiting, advance}
use yakutil.Wheel.Waits.{Timer, timers, ticked, due, next, ticked_to}

-- A power of two of slots, with its mask, and a position among them.
pub record IsValid {T : Type 0} (w : Wheel T) : Type 0 where
  pub k : ℕ
  pub size : length w.slots ≡ 2 ^ k
  pub masked : w.mask ≡ 2 ^ k - 1
  pub in_range : w.cur < length w.slots

-- all the timers that run, by the slots that they wait in
abbrev pub pending : {T : Type 0} → Wheel T → List (Timer T)
pending w = timers (length w.slots) w.cur 0 w.slots

next-mod : (size cur : ℕ) → cur < size → (cur + 1) % size ≡ next size cur
next-mod size cur in_range = ground (arith, rotate cur 1 size in_range (omega arith))

next-lt : (size cur : ℕ) → cur < size → next size cur < size
next-lt size cur in_range = ground arith

module _ {T : Type 0} where
  timers-replicate : (size cur p n : ℕ) → timers {T = T} size cur p (replicate n []) ≡ []
  timers-replicate size cur p zero = refl
  timers-replicate size cur p (suc n) = timers-replicate size cur (suc p) n

  -- New with up to 2^62 slots asked for gives a valid wheel on which no timer runs, whose number of
  -- slots is the least power of two, from 16, that is not below the number asked for.
  pub new-pending :
      (tick num_slots : ℕ)
      → num_slots ≤ 2 ^ 62
      → (w : Wheel T) × (new tick num_slots ≡ some w)
        × IsValid w
        × (pending w ≡ [])
        × Rounded 4 num_slots (some (length w.slots))
  unfolding new
  new-pending tick num_slots small =
      let r =
        double_while-Rounded (λ sz. ltb sz num_slots) num_slots int_rounds 4 (λ s le. refl) small
          (omega arith) (omega arith) in
      let slots : List (List (Entry T)) = replicate (2 ^ r.k) [] in
      let size : length slots ≡ 2 ^ r.k = length-replicate (2 ^ r.k) [] in
      (
        record { tick = tick; slots = slots; mask = 2 ^ r.k - 1; cur = 0; next_id = 0; index = [] },
        rw r.found refl,
        record { k = r.k; size = size; masked = refl; in_range = omega (arith, two-pow-pos r.k) },
        timers-replicate (length slots) 0 0 (2 ^ r.k),
        rw (size, ← r.found) r,
      )

  module _ (w : Wheel T) (v : IsValid w) where
    pub masks : (x : ℕ) → bit_and x w.mask ≡ x % length w.slots
    masks x = ap (bit_and x) v.masked ∙ (bit_and-mask v.k x ∙ sym (ap (λ n. x % n) v.size))

    -- A call of Advance on a valid wheel is a tick of the clock for every timer that runs: those with
    -- one tick left go to the callback, slot by slot and in the order of their calls of Add, and
    -- the others have one tick less to wait. The wheel stays valid.
    pub advance-ticked :
        IsValid (advance w).0
        × (pending (advance w).0 ≡ ticked (pending w))
        × ((advance w).1 ≡ due (pending w))
    unfolding advance
    advance-ticked =
        let size = length w.slots in
        let there : bit_and (w.cur + 1) w.mask ≡ next size w.cur =
          masks (w.cur + 1) ∙ next-mod size w.cur v.in_range in
        let (t, d) =
          ticked_to size w.cur (next size w.cur) 0 w.slots v.in_range (omega arith) (omega arith) in
        let slots = set w.slots (next size w.cur) (waiting (get_or w.slots (next size w.cur) [])) in
        let long : length slots ≡ size = length-set w.slots (next size w.cur) _ in
        rw there (
          record {
            k = v.k;
            size = long ∙ v.size;
            masked = v.masked;
            in_range = rw long (next-lt size w.cur v.in_range);
          },
          rw long (sym t),
          sym d,
        )
