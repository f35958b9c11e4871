-- ===== src/Ratelimit/Bounds.antt =====
-- ratelimit/ratelimit.go: no more tokens go through than the bucket holds and the time brings.
use yakutil.Base.{ℕ, zero, suc, ◌+◌, ◌-◌, ◌*◌, ◌/◌, ◌≤◌, ◌≡◌, refl, List, arith, replicate}
use yakutil.Ratelimit.Bucket.{new, or_one, second, origin}
use yakutil.Ratelimit.Calls.{
  Caller, resting, looping, timed, refilling, topping, beaten, deciding, load_tokens, System, Step,
  begins, loads_last, loads_tokens, claims, loads_again, tops_up, reloads, refuses, takes, Steps,
  done, after,
}
use yakutil.Ratelimit.Paid.{
  all_owed, Timely, Timely-get, Paid-less, Inv, moved_on, load_tokens-owed, claim-Inv, top_up-Inv,
  take-Inv,
}

Step-Inv :
    (interval burst start upto : ℕ) (s t : System)
    → Step upto s t
    → Inv interval burst start upto s
    → Inv interval burst start upto t
Step-Inv interval burst start upto _ _ (begins l cs g i need now at fits h) inv =
    moved_on interval burst start upto l cs g i resting (looping need now) at h (omega arith) inv
Step-Inv interval burst start upto _ _ (loads_last l cs g i need now at) inv =
    moved_on interval burst start upto l cs g i (looping need now) (timed need now l.last_nano) at
      (Timely-get upto cs i (looping need now) at inv.timely) (omega arith) inv
Step-Inv interval burst start upto _ _ (loads_tokens l cs g i need now last at up) inv =
    let (none_owed, same_time) = load_tokens-owed l need now last in
    let h : now ≤ upto = Timely-get upto cs i (timed need now last) at inv.timely in
    moved_on interval burst start upto l cs g i (timed need now last) (load_tokens l need now last)
      at (omega arith) (omega arith) inv
Step-Inv interval burst start upto _ _ (claims l cs g i need now last at) inv =
    claim-Inv interval burst start upto l cs g i need now last at inv
Step-Inv interval burst start upto _ _ (loads_again l cs g i need now add at) inv =
    moved_on interval burst start upto l cs g i (refilling need now add)
      (topping need now add l.tokens) at
      (Timely-get upto cs i (refilling need now add) at inv.timely) (omega arith) inv
Step-Inv interval burst start upto _ _ (tops_up l cs g i need now add tok at) inv =
    top_up-Inv interval burst start upto l cs g i need now add tok at inv
Step-Inv interval burst start upto _ _ (reloads l cs g i need now at) inv =
    moved_on interval burst start upto l cs g i (beaten need now) (deciding need now l.tokens) at
      (Timely-get upto cs i (beaten need now) at inv.timely) (omega arith) inv
Step-Inv interval burst start upto _ _ (refuses l cs g i need now cur at short) inv =
    moved_on interval burst start upto l cs g i (deciding need now cur) resting at (omega arith)
      (omega arith) inv
Step-Inv interval burst start upto _ _ (takes l cs g i need now cur at enough) inv =
    take-Inv interval burst start upto l cs g i need now cur at (ground (arith, enough)) inv

Steps-Inv :
    (interval burst start upto : ℕ) (s t : System)
    → Steps upto s t
    → Inv interval burst start upto s
    → Inv interval burst start upto t
Steps-Inv interval burst start upto _ _ (done s) inv = inv
Steps-Inv interval burst start upto _ _ (after s t u steps step) inv =
    Step-Inv interval burst start upto t u step (Steps-Inv interval burst start upto s t steps inv)

-- `n` goroutines that have not begun.
abbrev pub all_resting : ℕ → List Caller
all_resting n = replicate n resting

all_resting-owed : (upto n : ℕ) → (all_owed (all_resting n) ≡ 0) × Timely upto (all_resting n)
all_resting-owed upto zero = (refl, tt)
all_resting-owed upto (suc n) =
    let (none_owed, timely) = all_resting-owed upto n in
    (omega (arith, none_owed), (omega arith, timely))

-- A limiter is made at `start`, and goroutines call AllowN, whose steps come between each other in
-- any order, on a clock that reads no more than `upto`, which is not before `start`. The tokens that
-- have gone through are then paid for, an interval each, by the burst and the time since `start`.
pub Steps-granted :
    (rate burst start upto n : ℕ)
    → start ≤ upto
    → (t : System)
    → Steps upto (record { limiter = new rate burst start; callers = all_resting n; granted = 0 }) t
    → (second / or_one rate) * t.granted ≤ (second / or_one rate) * or_one burst + (upto - start)
unfolding new
Steps-granted rate burst start upto n forth t steps =
    let interval = second / or_one rate in
    let (none_owed, timely) = all_resting-owed upto n in
    let first : System = record {
      limiter = new rate burst start;
      callers = all_resting n;
      granted = 0;
    } in
    let inv : Inv interval (or_one burst) start upto t =
      Steps-Inv interval (or_one burst) start upto first t steps (record {
        same_interval = refl;
        timely = timely;
        in_time = forth;
        paid =
            Paid-less interval (or_one burst) start (or_one burst)
              (origin + or_one burst - origin + all_owed (all_resting n) + 0) start
              (omega (arith, none_owed)) (omega arith);
      }) in
    omega (
      arith,
      forth,
      inv.in_time,
      Paid-less interval (or_one burst) start
          (t.limiter.tokens - origin + all_owed t.callers + t.granted) t.granted t.limiter.last_nano
          (omega arith) inv.paid,
    )
