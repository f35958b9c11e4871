-- ===== src/Wheel/Additions.antt =====
-- wheel/wheel.go: what Add and Cancel do to the timers.
use Prim.Native.Nat.{bit_and}
use mathlib.Core.List.{append_assoc, map-append}
use native.Mathlib.Nat.{mod-lt, add-mod-mod, div-add-mod'}
use yakutil.Base.{
  ℕ, zero, suc, ◌+◌, ◌*◌, ◌/◌, ◌%◌, ◌<◌, ◌≡◌, refl, sym, ◌∙◌, ap, List, [], ◌∷◌, ◌++◌, map, arith,
  ◌==◌, if◌then◌else◌, length, get_or, set, length-set, rotate,
}
use yakutil.Base.Bits.{two-pow-pos}
use yakutil.Base.Int.{u64_mod}
use yakutil.Wheel.Slots.{Entry, Wheel, push_back, schedule}
use yakutil.Wheel.Waits.{Timer, distance, timer, timers}
use yakutil.Wheel.Ticks.{IsValid, pending, masks}

module _ {T : Type 0} where
  -- One more among others.
  pub record Inserted (x : Timer T) (before after : List (Timer T)) : Type 0 where
    pub front : List (Timer T)
    pub back : List (Timer T)
    pub was : before ≡ front ++ back
    pub is : after ≡ front ++ x ∷ back

  Inserted-append :
      (l : List (Timer T)) (x : Timer T) {m m' : List (Timer T)}
      → Inserted x m m'
      → Inserted x (l ++ m) (l ++ m')
  Inserted-append l x i = record {
    front = l ++ i.front;
    back = i.back;
    was = ap (λ k. l ++ k) i.was ∙ sym (append_assoc l i.front i.back);
    is = ap (λ k. l ++ k) i.is ∙ sym (append_assoc l i.front (x ∷ i.back));
  }

  timers-set :
      (size cur i p q : ℕ) (e : Entry T) (l : List (List (Entry T)))
      → i < length l
      → p + i ≡ q
      → Inserted
          (timer size (distance size cur q) e)
          (timers size cur p l)
          (timers size cur p (set l i (push_back e (get_or l i []))))
  unfolding push_back
  timers-set size cur i p q e [] h there = absurd (omega arith)
  timers-set size cur zero p q e (slot ∷ l) h there =
      let d = distance size cur p in
      let here : q ≡ p = omega arith in
      rw here (record {
        front = map (timer size d) slot;
        back = timers size cur (suc p) l;
        was = refl;
        is = rw (map-append (timer size d) slot (e ∷ [])) (
            append_assoc (map (timer size d) slot) (timer size d e ∷ [])
              (timers size cur (suc p) l));
      })
  timers-set size cur (suc i) p q e (slot ∷ l) h there =
      Inserted-append (map (timer size (distance size cur p)) slot)
        (timer size (distance size cur q) e)
        (timers-set size cur i (suc p) q e l (omega arith) (omega arith))

-- The distance and the rounds of a new entry.
left_new :
    (size cur t : ℕ)
    → cur < size
    → distance size cur ((cur + t) % size) + t / size * size
      ≡ (if t % size == 0 then t + size else t)
left_new size cur t in_range =
    let rest : t % size < size = mod-lt t (omega arith) in
    rw⁻¹ (add-mod-mod cur t size)
      (ground (arith, rotate cur (t % size) size in_range (omega arith), div-add-mod' t size))

module _ {T : Type 0} (w : Wheel T) (v : IsValid w) (t : ℕ) (x : T) where
  -- Add on a valid wheel, for a duration of `t` ticks, starts a timer under the next id that is left
  -- with `t` ticks, except where `t` is a multiple of the number of slots: there it is left with a
  -- whole turn of the wheel more. No other timer is changed, and the wheel stays valid.
  pub schedule-pending :
      IsValid (schedule w t x).0
      × ((schedule w t x).1 ≡ (w.next_id + 1) % u64_mod)
      × Inserted
          (record {
            left = if t % length w.slots == 0 then t + length w.slots else t;
            id = (w.next_id + 1) % u64_mod;
            val = x;
          })
          (pending w)
          (pending (schedule w t x).0)
  unfolding schedule
  schedule-pending =
      let size = length w.slots in
      let pos : bit_and (w.cur + t) w.mask ≡ (w.cur + t) % size = masks w v (w.cur + t) in
      let width : w.mask + 1 ≡ size = omega (arith, v.masked, v.size, two-pow-pos v.k) in
      let id = (w.next_id + 1) % u64_mod in
      let e : Entry T = record { id = id; val = x; rounds = t / size } in
      let slots =
        set w.slots ((w.cur + t) % size) (push_back e (get_or w.slots ((w.cur + t) % size) [])) in
      let long : length slots ≡ size = length-set w.slots ((w.cur + t) % size) _ in
      rw (pos, width)
        (
          record {
            k = v.k;
            size = long ∙ v.size;
            masked = v.masked;
            in_range = rw long v.in_range;
          },
          refl,
          rw (long, ← left_new size w.cur t v.in_range)
              (timers-set size w.cur ((w.cur + t) % size) 0 ((w.cur + t) % size) e w.slots
                (mod-lt (w.cur + t) (omega (arith, v.in_range))) (omega arith)),
        )
